-- ===== src/Tui/Input/Ascii.antt =====
-- Typing ASCII is safe (crates/lockframe-tui/src/input.rs): a character is a byte, so that the cursor, which
-- moves by one for each character, is always at a boundary.
use lockframe.Common.{
  ℕ, zero, suc, ◌+◌, ◌-◌, ◌≡◌, ◌≤◌, ◌<◌, refl, ap, List, [], ◌∷◌, true, false, Option, none, some,
  ◌==◌, ltb, length, All, Bool-cases, inl, inr, arith,
}
use lockframe.App.State.{App, AppAction}
use lockframe.Tui.Commands.{String}
use lockframe.Tui.Input.{
  KeyInput, InputState, char, enter, backspace, delete, tab, esc, left, right, up, down, home, end,
  len_utf8, byte_len, insert_at, remove_at, pressed, handle_key, handle_enter, typed, new,
}

abbrev pub IsAscii : ℕ → Type 0
IsAscii c = c < 128

len_utf8-one : (c : ℕ) → IsAscii c → len_utf8 c ≡ 1
unfolding len_utf8
len_utf8-one c h = ground (arith, h)

-- The line is of ASCII characters, and the cursor in it or at its end.
pub record IsInside (s : InputState) : Type 0 where
  pub ascii : All IsAscii s.buffer
  pub inside : s.cursor ≤ length s.buffer

byte_len-IsAscii : (text : String) → All IsAscii text → byte_len text ≡ length text
unfolding byte_len
byte_len-IsAscii [] h = refl
byte_len-IsAscii (c ∷ text) (a, h) = omega (arith, len_utf8-one c a, byte_len-IsAscii text h)

-- The tests on the way to a place behind the first character.
steps :
    (d at : ℕ)
    → IsAscii d
    → (len_utf8 d ≡ 1) × ((suc at == 0) ≡ false) × (ltb (suc at) 1 ≡ false) × (suc at - 1 ≡ at)
steps d at a = (len_utf8-one d a, ground arith, ground arith, omega arith)

-- An insertion inside the text or at its end.
insert_at-IsAscii :
    (text : String) (at c : ℕ)
    → All IsAscii text
    → IsAscii c
    → at ≤ length text
    → (text' : String) × (insert_at text at c ≡ some text')
      × All IsAscii text'
      × (length text' ≡ length text + 1)
unfolding insert_at
insert_at-IsAscii [] zero c h a le = (c ∷ [], refl, (a, tt), refl)
insert_at-IsAscii [] (suc at) c h a le = absurd (omega arith)
insert_at-IsAscii (d ∷ text) zero c (ad, h) a le = (c ∷ d ∷ text, refl, (a, (ad, h)), omega arith)
insert_at-IsAscii (d ∷ text) (suc at) c (ad, h) a le =
    let (text', e, w, n) = insert_at-IsAscii text at c h a (omega arith) in
    let (one, more, past, back) = steps d at ad in
    (d ∷ text', rw (one, more, past, back, e) refl, (ad, w), omega (arith, n))

-- A removal inside the text.
remove_at-IsAscii :
    (text : String) (at : ℕ)
    → All IsAscii text
    → at < length text
    → (text' : String) × (remove_at text at ≡ some text')
      × All IsAscii text'
      × (length text' + 1 ≡ length text)
unfolding remove_at
remove_at-IsAscii [] at h le = absurd (omega arith)
remove_at-IsAscii (d ∷ text) zero (ad, h) le = (text, refl, h, omega arith)
remove_at-IsAscii (d ∷ text) (suc at) (ad, h) le =
    let (text', e, w, n) = remove_at-IsAscii text at h (omega arith) in
    let (one, more, past, back) = steps d at ad in
    (d ∷ text', rw (one, more, past, back, e) refl, (ad, w), omega (arith, n))

-- The keys that type ASCII characters, and all others.
abbrev pub IsAsciiKey : KeyInput → Type 0
IsAsciiKey (char c) = c < 128
IsAsciiKey _ = Unit {0}

abbrev Inside : Option InputState → Type 0
Inside o = (s : InputState) × (o ≡ some s) × IsInside s

pressed-Inside :
    (s : InputState) (key : KeyInput) → IsAsciiKey key → IsInside s → Inside (pressed s key)
unfolding pressed
pressed-Inside s (char c) a i =
    let (text', e, w, n) = insert_at-IsAscii s.buffer s.cursor c i.ascii a i.inside in
    (
      record { buffer = text'; cursor = s.cursor + 1 },
      rw e refl,
      record { ascii = w; inside = omega (arith, n, i.inside) },
    )
pressed-Inside s backspace a i = elim (Bool-cases (s.cursor == 0)) [
  | inl first ↦ (s, rw first refl, i)
  | inr more ↦
      let (text', e, w, n) =
        remove_at-IsAscii s.buffer (s.cursor - 1) i.ascii (ground (arith, more, i.inside)) in
      (
        record { buffer = text'; cursor = s.cursor - 1 },
        rw (more, e) refl,
        record { ascii = w; inside = omega (arith, n, i.inside) },
      )
]
pressed-Inside s delete a i = elim (Bool-cases (ltb s.cursor (byte_len s.buffer))) [
  | inr last ↦ (s, rw last refl, i)
  | inl more ↦
      let (text', e, w, n) =
        remove_at-IsAscii s.buffer s.cursor i.ascii
          (ground (arith, more, byte_len-IsAscii s.buffer i.ascii)) in
      (
        record { buffer = text'; cursor = s.cursor },
        rw (more, e) refl,
        record { ascii = w; inside = ground (arith, n, more, byte_len-IsAscii s.buffer i.ascii) },
      )
]
pressed-Inside s right a i = elim (Bool-cases (ltb s.cursor (byte_len s.buffer))) [
  | inr last ↦ (s, rw last refl, i)
  | inl more ↦ (
    record s { cursor = s.cursor + 1 },
    rw more refl,
    record { ascii = i.ascii; inside = ground (arith, more, byte_len-IsAscii s.buffer i.ascii) },
  )
]
pressed-Inside s left a i = (_, refl, record { ascii = i.ascii; inside = omega (arith, i.inside) })
pressed-Inside s home a i = (_, refl, record { ascii = i.ascii; inside = omega arith })
pressed-Inside s end a i =
    (_, refl, record { ascii = i.ascii; inside = omega (arith, byte_len-IsAscii s.buffer i.ascii) })
pressed-Inside s enter a i = (_, refl, i)
pressed-Inside s tab a i = (_, refl, i)
pressed-Inside s esc a i = (_, refl, i)
pressed-Inside s up a i = (_, refl, i)
pressed-Inside s down a i = (_, refl, i)

abbrev Answers : Option ((InputState × App) × List AppAction) → Type 0
Answers o = (answer : (InputState × App) × List AppAction) × (o ≡ some answer) × IsInside answer.0.0

typed-Answers : (app : App) (o : Option InputState) → Inside o → Answers (typed app o)
typed-Answers app none (s, e, i) = cc e
typed-Answers app (some s') (s, e, i) = (_, refl, (let same : s ≡ s' = cc in rw same at i))

handle_key-Answers :
    (s : InputState) (key : KeyInput) (app : App)
    → IsAsciiKey key
    → IsInside s
    → Answers (handle_key s key app)
unfolding handle_key handle_enter
handle_key-Answers s enter app a i = (_, refl, record { ascii = tt; inside = omega arith })
handle_key-Answers s tab app a i = (_, refl, i)
handle_key-Answers s esc app a i = (_, refl, i)
handle_key-Answers s up app a i = (_, refl, i)
handle_key-Answers s down app a i = (_, refl, i)
handle_key-Answers s (char c) app a i =
    typed-Answers app (pressed s (char c)) (pressed-Inside s (char c) a i)
handle_key-Answers s backspace app a i =
    typed-Answers app (pressed s backspace) (pressed-Inside s backspace a i)
handle_key-Answers s delete app a i =
    typed-Answers app (pressed s delete) (pressed-Inside s delete a i)
handle_key-Answers s left app a i = typed-Answers app (pressed s left) (pressed-Inside s left a i)
handle_key-Answers s right app a i =
    typed-Answers app (pressed s right) (pressed-Inside s right a i)
handle_key-Answers s home app a i = typed-Answers app (pressed s home) (pressed-Inside s home a i)
handle_key-Answers s end app a i = typed-Answers app (pressed s end) (pressed-Inside s end a i)

-- Keys one after the other.
unfoldable pub run : InputState → App → List KeyInput → Option (InputState × App)
run s app [] = some (s, app)
run s app (key ∷ keys) = elim (handle_key s key app) [
  | none ↦ none
  | some ((s', app'), actions) ↦ run s' app' keys
]

run-Inside :
    (s : InputState) (app : App) (keys : List KeyInput)
    → All IsAsciiKey keys
    → IsInside s
    → (end_of : InputState × App) × (run s app keys ≡ some end_of) × IsInside end_of.0
unfolding run
run-Inside s app [] a i = (_, refl, i)
run-Inside s app (key ∷ keys) (a, more) i =
    let (((s', app'), actions), e, i') = handle_key-Answers s key app a i in
    rw (e, run) (run-Inside s' app' keys more i')

-- Any keys on an empty line whose characters are ASCII are handled without a panic, and leave the cursor in
-- the bytes of the line or at their end.
pub run-new-inside :
    (app : App) (keys : List KeyInput)
    → All IsAsciiKey keys
    → (end_of : InputState × App) × (run new app keys ≡ some end_of)
      × (end_of.0.cursor ≤ byte_len end_of.0.buffer)
unfolding new
run-new-inside app keys a =
    let (end_of, e, i) = run-Inside new app keys a (record { ascii = tt; inside = omega arith }) in
    (end_of, e, omega (arith, byte_len-IsAscii end_of.0.buffer i.ascii, i.inside))

wide : (c : ℕ) → 128 ≤ c → ltb 1 (len_utf8 c) ≡ true
unfolding len_utf8
wide c h = ground (arith, h)

second-none :
    (app : App) (c d : ℕ)
    → 128 ≤ c
    → handle_key (record { buffer = c ∷ []; cursor = 1 }) (char d) app ≡ none
unfolding handle_key pressed insert_at
second-none app c d h = rw (wide c h, handle_key, pressed, insert_at) refl

-- A character that is no ASCII, typed on an empty line, makes the next character panic, whichever it is.
pub character_after_wide_panics :
    (app : App) (c d : ℕ) (keys : List KeyInput)
    → 128 ≤ c
    → run new app (char c ∷ char d ∷ keys) ≡ none
unfolding run handle_key pressed new insert_at
character_after_wide_panics app c d keys h =
    ap (λ o. elim o [ none ↦ none | some ((s, app'), actions) ↦ run s app' keys ])
      (second-none app c d h)

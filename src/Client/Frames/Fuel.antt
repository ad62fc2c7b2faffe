-- ===== src/Client/Frames/Fuel.antt =====
-- A frame is handled in the end (crates/lockframe-client/src/client.rs): sync responses inside sync responses
-- get shorter.
use lockframe.Common.{
  ℕ, zero, suc, ◌+◌, ◌≤◌, ◌<◌, ◌≡◌, refl, ap, List, [], ◌∷◌, Option, none, some, Option-cases,
  Result-cases, Bool-cases, le_of_ltb, inl, inr, ltb, Result, ok, err, length, length-take,
  length-drop, take, drop, All, arith,
}
use lockframe.Proto.Opcode.{Opcode}
use lockframe.Proto.Header.{opcode_enum, from_bytes, size}
use lockframe.Proto.Header
use lockframe.Proto.Frame.{Frame, decode, read_payload}
use lockframe.Proto.Payload.Types.{SyncResponse}
use lockframe.Proto.Payload.Coder.{Cbor}
use lockframe.Core.Validator.{Ed25519}
use lockframe.Core.Mls.{OpenMls}
use lockframe.Crypto.Ratchet.{Key}
use lockframe.Crypto.Encryption.{Aead}
use lockframe.Client.Types.{Client, Outcome, Reading}
use lockframe.Client.Frames.{
  Handler, after_frame, sync_frames, synced, handle_sync_response, dispatch, handle_frame,
}

-- The byte strings that a coded sync response contains are no longer than it is.
abbrev pub ReadsWithin : Cbor → Type 0
ReadsWithin cbor =
    (bytes : List ℕ) (r : SyncResponse)
    → cbor.sync_response.from_reader bytes ≡ some r
    → All (λ b. length b ≤ length bytes) r.frames

payload_of :
    {E : Type 0} (f g : Frame) → ◌≡◌ {A = Result E Frame} (ok f) (ok g) → f.payload ≡ g.payload
payload_of f g e = cc

read_payload-shorter :
    (bytes : List ℕ) (h : Header.FrameHeader) (f : Frame)
    → read_payload bytes h ≡ ok f
    → length f.payload + size ≤ length bytes
unfolding read_payload
read_payload-shorter bytes h f e =
    let n = Header.payload_size h in
    elim (Bool-cases (ltb (length bytes) (size + n))) [
      | inl short ↦ cc (rw short at e)
      | inr long ↦
          let cut : take n (drop size bytes) ≡ f.payload =
            payload_of (record { header = h; payload = take n (drop size bytes) }) f
              (rw long at e) in
          omega (
            arith,
            le_of_ltb (length bytes) (size + n) long,
            ap (λ (xs : List ℕ). length xs) cut,
            length-take n (drop size bytes),
            length-drop size bytes,
          )
    ]

-- A frame that was decoded is shorter than its bytes by the header.
decode-shorter :
    (bytes : List ℕ) (f : Frame) → decode bytes ≡ ok f → length f.payload + size ≤ length bytes
unfolding decode read_payload
decode-shorter bytes f e = elim (Result-cases (from_bytes bytes)) [
  | inr (x, bad) ↦ cc (let k : err x ≡ ok f = rw (bad, decode) at e in k)
  | inl (h, good) ↦ read_payload-shorter bytes h f (rw (good, decode) at e)
]

abbrev pub Returns : {A : Type 0} → Option A → Type 0
Returns {A} o = (a : A) × (o ≡ some a)

module _ {G P : Type 0} where
  after_frame-Returns :
      (i : ℕ) (o : Option (Outcome G P)) (rest : Client G P → Option (Outcome G P))
      → Returns o
      → ((c : Client G P) → Returns (rest c))
      → Returns (after_frame i o rest)
  unfolding after_frame
  after_frame-Returns i o rest ((c, result), e) more =
      let (last, e') = more c in rw (e, after_frame, e') (_, refl)

  sync_frames-Returns :
      (handle : Handler G P) (n : ℕ) (frames : List (List ℕ)) (i : ℕ) (c : Client G P)
      → ((c : Client G P) (f : Frame) → length f.payload < n → Returns (handle c f))
      → All (λ b. length b ≤ n) frames
      → Returns (sync_frames handle frames i c)
  unfolding sync_frames
  sync_frames-Returns handle n [] i c h w = (_, refl)
  sync_frames-Returns handle n (bytes ∷ rest) i c h (short, w) =
      elim (Result-cases (decode bytes)) [
        | inr (e, bad) ↦ rw (bad, sync_frames) (_, refl)
        | inl (f, good) ↦
            rw (good, sync_frames)
              (after_frame-Returns i (handle c f) (λ c'. sync_frames handle rest (i + 1) c')
                (h c f (omega (arith, decode-shorter bytes f good, short)))
                (λ c'. sync_frames-Returns handle n rest (i + 1) c' h w))
      ]

module _ {G P : Type 0} (mls : OpenMls G P) (expand : List ℕ → List ℕ → ℕ → List ℕ)
    (mac : Key → List ℕ → Key) (aead : Aead) (cbor : Cbor) (ed : Ed25519)
    (within : ReadsWithin cbor) where
  synced-Returns :
      (room : ℕ) (r : SyncResponse) (o : Option (Outcome G P))
      → Returns o
      → Returns (synced mls room r o)
  unfolding synced
  synced-Returns room r o ((c, result), e) = rw (e, synced) (_, refl)

  sync_response-Returns :
      (handle : Handler G P) (c : Client G P) (room : ℕ) (f : Frame)
      → ((c : Client G P) (g : Frame) → length g.payload < length f.payload → Returns (handle c g))
      → Returns (handle_sync_response mls expand mac aead cbor ed handle c room f)
  unfolding handle_sync_response
  sync_response-Returns handle c room f h =
      elim (Option-cases (cbor.sync_response.from_reader f.payload)) [
        | inl bad ↦ rw (bad, handle_sync_response) (_, refl)
        | inr (r, good) ↦
            rw (good, handle_sync_response)
              (synced-Returns room r (sync_frames handle r.frames 0 c) (
                sync_frames-Returns handle (length f.payload) r.frames 0 c h
                  (within f.payload r good)))
      ]

  dispatch-Returns :
      (handle : Handler G P) (c : Client G P) (f : Frame) (env : Reading) (o : Option Opcode)
      → ((c : Client G P) (g : Frame) → length g.payload < length f.payload → Returns (handle c g))
      → Returns (dispatch mls expand mac aead cbor ed handle c f env o)
  unfolding dispatch
  dispatch-Returns handle c f env none h = (_, refl)
  dispatch-Returns handle c f env (some Opcode.hello_reply) h = (_, refl)
  dispatch-Returns handle c f env (some Opcode.pong) h = (_, refl)
  dispatch-Returns handle c f env (some Opcode.error) h = (_, refl)
  dispatch-Returns handle c f env (some Opcode.app_message) h = (_, refl)
  dispatch-Returns handle c f env (some Opcode.commit) h = (_, refl)
  dispatch-Returns handle c f env (some Opcode.external_commit) h = (_, refl)
  dispatch-Returns handle c f env (some Opcode.welcome) h = (_, refl)
  dispatch-Returns handle c f env (some Opcode.sync_response) h =
      sync_response-Returns handle c (Header.room_id f.header) f h
  dispatch-Returns handle c f env (some Opcode.key_package_fetch) h = (_, refl)
  dispatch-Returns handle c f env (some Opcode.group_info) h = (_, refl)
  dispatch-Returns handle c f env (some _) h = (_, refl)

  -- Handling a frame, with more fuel than the payload has bytes, comes to an end, though sync
  -- responses may contain frames that are sync responses in turn: the coder reads no byte string
  -- that is longer than its input.
  pub handle_frame-Returns :
      (fuel : ℕ) (env : Reading) (c : Client G P) (f : Frame)
      → length f.payload < fuel
      → Returns (handle_frame mls expand mac aead cbor ed fuel env c f)
  unfolding handle_frame
  handle_frame-Returns zero env c f h = elim h [ ]
  handle_frame-Returns (suc fuel) env c f h =
      dispatch-Returns (handle_frame mls expand mac aead cbor ed fuel env) c f env
        (opcode_enum f.header) (λ c' g shorter. handle_frame-Returns fuel env c' g (omega arith))

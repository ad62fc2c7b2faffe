-- ===== src/Examples/Screen.antt =====
-- The application and the terminal (crates/lockframe-app and crates/lockframe-tui).
use lockframe.Common.{ℕ, ◌≡◌, ◌≤◌, List, [], ◌∷◌, none, some, ok, arith}
use lockframe.Proto.Payload.Types.{Text}
use lockframe.Client.Types.{ClientError, Outcome, key_package_needed, invalid_state}
use lockframe.Client.Frames.Fuel.{Returns}
use lockframe.App.State.{App, new, room_joined, room_left, message_received}
use lockframe.App.State.Rooms.{Input, event, select, run, IsChosen, run-new-IsChosen}
use lockframe.App.Bridge.{Bridge, handle_client_result}
use lockframe.App.Bridge.Depth.{handle_client_result-Returns}
use lockframe.Tui.Input.{InputState, KeyInput, char, left, backspace, delete, byte_len}
use lockframe.Tui.Input
use lockframe.Tui.Input.Ascii
use lockframe.Tui.Input.Ascii.{run-new-inside, character_after_wide_panics}
use lockframe.Examples.Keys.{mac, expand, aead}
use lockframe.Examples.Validation.{ed}
use lockframe.Examples.Member.{mls, cbor, client, reading}

-- Two rooms, a message for the second, and the first left.
abbrev inputs : List Input
inputs =
    event (room_joined 7)
    ∷ event (room_joined 8)
    ∷ event (message_received 8 100 (1 ∷ []))
    ∷ select 7
    ∷ event (room_left 7)
    ∷ []

run-new-IsChosen_example : IsChosen (run (new []) inputs).rooms (run (new []) inputs).active_room
run-new-IsChosen_example = run-new-IsChosen [] inputs

abbrev keys : List KeyInput
keys = char 104 ∷ char 105 ∷ left ∷ backspace ∷ delete ∷ delete ∷ []

run-new-inside_example :
    (end_of : InputState × App) × (Ascii.run Input.new (new []) keys ≡ some end_of)
    × (end_of.0.cursor ≤ byte_len end_of.0.buffer)
run-new-inside_example =
    run-new-inside (new []) keys (omega arith, (omega arith, (tt, (tt, (tt, (tt, tt))))))

-- An e with an accent, and an e.
character_after_wide_panics_example : Ascii.run Input.new (new []) (char 233 ∷ char 101 ∷ []) ≡ none
character_after_wide_panics_example = character_after_wide_panics (new []) 233 101 [] (omega arith)

abbrev describe : ClientError → Text
describe e = []

abbrev bridge : Bridge ℕ ℕ
bridge = record { client = client; outgoing = [] }

abbrev outcome : Outcome ℕ ℕ
outcome = (client, ok (key_package_needed invalid_state ∷ []))

handle_client_result-Returns_example :
    Returns
      (handle_client_result mls expand mac aead cbor ed describe reading bridge (some outcome))
handle_client_result-Returns_example =
    handle_client_result-Returns mls expand mac aead cbor ed describe reading bridge outcome

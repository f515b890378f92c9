-- ===== src/Session/RingBuffer/Examples.antt =====
-- A test of the model of src/lumina/session/ring_buffer.py, and its theorem at concrete calls.
use Prim.Native.Nat.{max}
use lumina_framework.Base.{◌≤◌, some, none, List, [], ◌∷◌, ◌≡◌, refl, length, map}
use lumina_framework.Session.RingBuffer.{
  TurnRecord, init, snapshot, push, clear, hydrate, append, turn_of, hydrate_from,
}
use lumina_framework.Session.RingBuffer.Window.{Call, step, run, last_n, history_of, run_window}

abbrev calls : List Call
calls =
    Call.hydrate (
      record {
        timestamp = some 1;
        user_message = some "old";
        llm_response = none;
        domain_id = none;
      }
      ∷ [])
    ∷ Call.push 2 "hi" "hello" 7 "edu"
    ∷ Call.push 3 "bye" "see you" 8 "edu"
    ∷ []

calls_test : map (λ (r : TurnRecord). r.turn_number) (snapshot (run (init 2) calls)) ≡ 7 ∷ 8 ∷ []
unfolding run step init snapshot push clear hydrate hydrate_from append turn_of
calls_test = refl

run_window_example :
    (snapshot (run (init 2) calls) ≡ last_n (max 2 1) (history_of [] calls))
    × (length (snapshot (run (init 2) calls)) ≤ max 2 1)
run_window_example = run_window 2 calls

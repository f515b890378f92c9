-- ===== src/Session/RingBuffer/Window.antt =====
-- The ring buffer of src/lumina/session/ring_buffer.py against the full history of what was
-- recorded: it holds the last `maxlen` exchanges.
use lumina_framework.Base.{
  ℕ, zero, suc, ◌+◌, ◌-◌, ◌≤◌, ◌<◌, String, List, [], ◌∷◌, ◌++◌, length, drop, ltb, ltb→lt, ltb→le,
  ◌≡◌, refl, sym, ap, ◌∙◌, arith, length-append, length-drop, Bool-cases, inl, inr,
}
use Prim.Native.Nat.{max}
use mathlib.Core.Path.{subst}
use mathlib.Core.List.{append-nil, append_assoc}
use lumina_framework.Session.RingBuffer
use lumina_framework.Session.RingBuffer.{
  TurnRecord, TranscriptRecord, RingBuffer, init, append, turn_of, hydrate_from, snapshot,
}

-- The last `n` elements.
pub last_n : ℕ → List TurnRecord → List TurnRecord
last_n n xs = drop (length xs - n) xs

-- The buffer shows the last `maxlen` exchanges of the history.
pub record Tracks (history : List TurnRecord) (b : RingBuffer) : Type 0 where
  pub positive : 0 < b.maxlen
  pub window : b.buf ≡ last_n b.maxlen history

drop-append-le :
    (n : ℕ) (xs ys : List TurnRecord) → n ≤ length xs → drop n (xs ++ ys) ≡ drop n xs ++ ys
drop-append-le zero xs ys h = refl
drop-append-le (suc n) [] ys h = absurd (omega arith)
drop-append-le (suc n) (x ∷ xs) ys h = drop-append-le n xs ys (omega arith)

drop-drop_one : (n : ℕ) (xs : List TurnRecord) → drop 1 (drop n xs) ≡ drop (suc n) xs
drop-drop_one zero xs = refl
drop-drop_one (suc n) [] = refl
drop-drop_one (suc n) (x ∷ xs) = drop-drop_one n xs

length-last_n : (n : ℕ) (xs : List TurnRecord) → length (last_n n xs) ≡ length xs - (length xs - n)
unfolding last_n
length-last_n n xs = length-drop (length xs - n) xs

window_grows :
    (m : ℕ) (history : List TurnRecord) (r : TurnRecord)
    → length (last_n m history) < m
    → last_n m history ++ r ∷ [] ≡ last_n m (history ++ r ∷ [])
unfolding last_n
window_grows m history r h =
    sym (drop-append-le (length history - m) history (r ∷ []) (omega arith))
    ∙ ap (λ n. drop n (history ++ r ∷ []))
        (omega (arith, length-append history (r ∷ []), length-drop (length history - m) history))

window_moves :
    (m : ℕ) (history : List TurnRecord) (r : TurnRecord)
    → m ≤ length (last_n m history)
    → drop 1 (last_n m history ++ r ∷ []) ≡ last_n m (history ++ r ∷ [])
unfolding last_n
window_moves m history r h =
    ap (drop 1) (sym (drop-append-le (length history - m) history (r ∷ []) (omega arith)))
    ∙ drop-drop_one (length history - m) (history ++ r ∷ [])
    ∙ ap (λ n. drop n (history ++ r ∷ [])) {x = suc (length history - m)}
        (omega (arith, length-append history (r ∷ []), length-drop (length history - m) history))

append-Tracks :
    (history : List TurnRecord) (b : RingBuffer) (r : TurnRecord)
    → Tracks history b
    → Tracks (history ++ r ∷ []) (append b r)
unfolding append
append-Tracks history b r t = elim (Bool-cases (ltb (length b.buf) b.maxlen)) [
  | inl room ↦ record {
    positive = t.positive;
    window = rw room (
        ap (λ l. l ++ r ∷ []) t.window
        ∙ window_grows b.maxlen history r (rw t.window at (ltb→lt _ _ room)));
  }
  | inr full ↦ record {
    positive = t.positive;
    window = rw full (
        ap (λ l. drop 1 (l ++ r ∷ [])) t.window
        ∙ window_moves b.maxlen history r (rw t.window at (ltb→le _ _ full)));
  }
]

-- One call on a buffer.
pub data Call : Type 0 where
  push : ℕ → String → String → ℕ → String → Call
  clear : Call
  hydrate : List TranscriptRecord → Call

unfoldable pub step : RingBuffer → Call → RingBuffer
step b (push now u l n d) = RingBuffer.push now b u l n d
step b clear = RingBuffer.clear b
step b (hydrate records) = RingBuffer.hydrate b records

unfoldable pub run : RingBuffer → List Call → RingBuffer
run b [] = b
run b (c ∷ cs) = run (step b c) cs

-- The transcript's records as turns, numbered from `idx`.
pub numbered : ℕ → List TranscriptRecord → List TurnRecord
numbered idx [] = []
numbered idx (r ∷ records) = turn_of idx r ∷ numbered (idx + 1) records

-- All that was recorded since the buffer was last emptied.
pub history_after : List TurnRecord → Call → List TurnRecord
history_after history (push now u l n d) =
    history
    ++ record {
      timestamp = now;
      user_message = u;
      llm_response = l;
      turn_number = n;
      domain_id = d;
    }
      ∷ []
history_after history clear = []
history_after history (hydrate records) = numbered 0 records

pub history_of : List TurnRecord → List Call → List TurnRecord
history_of history [] = history
history_of history (c ∷ cs) = history_of (history_after history c) cs

hydrate_from-Tracks :
    (idx : ℕ) (history : List TurnRecord) (b : RingBuffer) (records : List TranscriptRecord)
    → Tracks history b
    → Tracks (history ++ numbered idx records) (hydrate_from idx b records)
unfolding hydrate_from numbered
hydrate_from-Tracks idx history b [] t = rw append-nil t
hydrate_from-Tracks idx history b (r ∷ records) t =
    subst (λ h. Tracks h (hydrate_from (idx + 1) (append b (turn_of idx r)) records))
      (append_assoc history (turn_of idx r ∷ []) (numbered (idx + 1) records))
      (hydrate_from-Tracks (idx + 1) (history ++ turn_of idx r ∷ []) (append b (turn_of idx r))
        records (append-Tracks history b (turn_of idx r) t))

drop-nil : (n : ℕ) → ◌≡◌ {A = List TurnRecord} (drop n []) []
drop-nil zero = refl
drop-nil (suc n) = refl

empty_window : (n : ℕ) → [] ≡ last_n n []
unfolding last_n
empty_window n = sym (drop-nil (0 - n))

init-maxlen : (maxlen : ℕ) → (init maxlen).maxlen ≡ max maxlen 1
unfolding init
init-maxlen maxlen = ground arith

init-Tracks : (maxlen : ℕ) → Tracks [] (init maxlen)
init-Tracks maxlen = record {
  positive = omega (arith, init-maxlen maxlen);
  window = unfold init in empty_window (init maxlen).maxlen;
}

hydrate_from-maxlen :
    (idx : ℕ) (b : RingBuffer) (records : List TranscriptRecord)
    → (hydrate_from idx b records).maxlen ≡ b.maxlen
unfolding hydrate_from append
hydrate_from-maxlen idx b [] = refl
hydrate_from-maxlen idx b (r ∷ records) =
    hydrate_from-maxlen (idx + 1) (append b (turn_of idx r)) records

clear-Tracks : (b : RingBuffer) → 0 < b.maxlen → Tracks [] (RingBuffer.clear b)
unfolding RingBuffer.clear
clear-Tracks b p = record { positive = p; window = empty_window b.maxlen }

step-Tracks :
    (history : List TurnRecord) (b : RingBuffer) (c : Call)
    → Tracks history b
    → Tracks (history_after history c) (step b c)
unfolding step history_after RingBuffer.push RingBuffer.hydrate
step-Tracks history b (push now u l n d) t = append-Tracks history b _ t
step-Tracks history b clear t = clear-Tracks b t.positive
step-Tracks history b (hydrate records) t =
    hydrate_from-Tracks 0 [] (RingBuffer.clear b) records (clear-Tracks b t.positive)

run-Tracks :
    (history : List TurnRecord) (b : RingBuffer) (calls : List Call)
    → Tracks history b
    → Tracks (history_of history calls) (run b calls)
unfolding run history_of
run-Tracks history b [] t = t
run-Tracks history b (c ∷ calls) t =
    run-Tracks (history_after history c) (step b c) calls (step-Tracks history b c t)

step-maxlen : (b : RingBuffer) (c : Call) → (step b c).maxlen ≡ b.maxlen
unfolding step RingBuffer.push RingBuffer.clear RingBuffer.hydrate append
step-maxlen b (push now u l n d) = refl
step-maxlen b clear = refl
step-maxlen b (hydrate records) = hydrate_from-maxlen 0 (RingBuffer.clear b) records

run-maxlen : (b : RingBuffer) (calls : List Call) → (run b calls).maxlen ≡ b.maxlen
unfolding run
run-maxlen b [] = refl
run-maxlen b (c ∷ calls) = run-maxlen (step b c) calls ∙ step-maxlen b c

-- After any calls a new buffer shows exactly the last exchanges recorded since it was last emptied,
-- oldest first and as many as its bound, which is at least one; it never holds more than the bound.
pub run_window :
    (maxlen : ℕ) (calls : List Call)
    → (snapshot (run (init maxlen) calls) ≡ last_n (max maxlen 1) (history_of [] calls))
      × (length (snapshot (run (init maxlen) calls)) ≤ max maxlen 1)
run_window maxlen calls =
    let t = run-Tracks [] (init maxlen) calls (init-Tracks maxlen) in
    let bound : (run (init maxlen) calls).maxlen ≡ max maxlen 1 =
      run-maxlen (init maxlen) calls ∙ init-maxlen maxlen in
    let window : snapshot (run (init maxlen) calls) ≡ last_n (max maxlen 1) (history_of [] calls) =
      unfold snapshot in t.window ∙ ap (λ n. last_n n (history_of [] calls)) bound in
    (window, rw window (omega (arith, length-last_n (max maxlen 1) (history_of [] calls))))

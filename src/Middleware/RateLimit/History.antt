-- ===== src/Middleware/RateLimit/History.antt =====
-- The in-memory counter against its history: what `Get` answers is counted from the calls made.
use arnon.Prelude.{
  ℕ, ◌+◌, ◌/◌, ◌≤◌, ◌<◌, ◌≡◌, refl, sym, ap, ◌∙◌, ◌⊎◌, inl, inr, ◌&&◌, ok, List, [], ◌∷◌, arith,
  ◌==◌, ==_iff, Bool-cases, false, if◌then◌else◌, All,
}
use native.Mathlib.Nat.{div-add-mod}
use native.Mathlib.Decide.{dec_le}
use arnon.Prelude.Strings.{Text, same}
use arnon.Middleware.RateLimit.{
  LocalLimitCounter, truncate, new_local_limit_counter, evict, local_increment_by, local_get,
}

-- A window is the same as an earlier one, or begins a whole length after it.
abbrev pub Follows : ℕ → ℕ → ℕ → Type 0
Follows length earlier later = (earlier ≡ later) ⊎ (earlier + length ≤ later)

-- Aligned windows of instants in order follow one another.
pub truncate-Follows :
    (t t' length : ℕ)
    → 0 < length
    → t ≤ t'
    → Follows length (truncate t length) (truncate t' length)
truncate-Follows t t' length h k = elim (dec_le (t' / length) (t / length)) [
  | yes same_window ↦ inl (grind (arith, div-add-mod t length, div-add-mod t' length))
  | no later ↦ inr (grind (arith, div-add-mod t length, div-add-mod t' length))
]

-- A call of the counter, as the history keeps it.
pub data Call : Type 0 where
  increment : Text → ℕ → ℕ → Call
  read : Text → ℕ → Call

abbrev pub window_of : Call → ℕ
window_of (increment key window amount) = window
window_of (read key window) = window

-- Histories have the latest call at their head.
unfoldable pub replay : LocalLimitCounter → List Call → LocalLimitCounter
replay start [] = start
replay start (increment key window amount ∷ earlier) =
    (local_increment_by key window amount (replay start earlier)).1
replay start (read key window ∷ earlier) = (local_get key window 0 (replay start earlier)).1

-- The amounts recorded for a key in one window.
unfoldable pub count_in : Text → ℕ → List Call → ℕ
count_in key window [] = 0
count_in key window (increment k w amount ∷ earlier) =
    let rest = count_in key window earlier in
    if same k key && w == window then rest + amount else rest
count_in key window (read k w ∷ earlier) = count_in key window earlier

-- The amounts recorded for a key in the window before the given one.
unfoldable pub count_before : ℕ → Text → ℕ → List Call → ℕ
count_before length key window [] = 0
count_before length key window (increment k w amount ∷ earlier) =
    let rest = count_before length key window earlier in
    if same k key && w + length == window then rest + amount else rest
count_before length key window (read k w ∷ earlier) = count_before length key window earlier

abbrev pub latest : ℕ → List Call → ℕ
latest start [] = start
latest start (call ∷ earlier) = window_of call

-- Each call's window follows the one before it.
abbrev pub InOrder : ℕ → ℕ → List Call → Type 0
InOrder length start [] = Unit
InOrder length start (call ∷ earlier) =
    Follows length (latest start earlier) (window_of call) × InOrder length start earlier

pub record Represents (c : LocalLimitCounter) (history : List Call) : Type 0 where
  pub current : (key : Text) → c.current_counts key ≡ count_in key c.tracked_window history
  pub previous :
      (key : Text)
      → c.previous_counts key ≡ count_before c.window_length key c.tracked_window history
  pub past : All (λ call. Follows c.window_length (window_of call) c.tracked_window) history

count_in-fresh :
    (key : Text) (window : ℕ) (history : List Call)
    → All (λ call. window_of call < window) history
    → count_in key window history ≡ 0
unfolding count_in
count_in-fresh key window [] h = refl
count_in-fresh key window (increment k w amount ∷ earlier) (lt, h) =
    ground (arith, count_in-fresh key window earlier h)
count_in-fresh key window (read k w ∷ earlier) (lt, h) = count_in-fresh key window earlier h

count_before-gap :
    (length : ℕ) (key : Text) (window : ℕ) (history : List Call)
    → All (λ call. window_of call + length < window) history
    → count_before length key window history ≡ 0
unfolding count_before
count_before-gap length key window [] h = refl
count_before-gap length key window (increment k w amount ∷ earlier) (lt, h) =
    ground (arith, count_before-gap length key window earlier h)
count_before-gap length key window (read k w ∷ earlier) (lt, h) =
    count_before-gap length key window earlier h

count_before-next :
    (length : ℕ) (key : Text) (window : ℕ) (history : List Call)
    → count_before length key (window + length) history ≡ count_in key window history
unfolding count_before count_in
count_before-next length key window [] = refl
count_before-next length key window (increment k w amount ∷ earlier) =
    ground (arith, count_before-next length key window earlier)
count_before-next length key window (read k w ∷ earlier) =
    count_before-next length key window earlier

All-weaken :
    {P Q : Call → Type 0} (f : (call : Call) → P call → Q call) (history : List Call)
    → All P history
    → All Q history
All-weaken f [] h = tt
All-weaken f (call ∷ earlier) (p, h) = (f call p, All-weaken f earlier h)

-- Rolling the windows keeps what the counter represents.
evict-Represents :
    (c : LocalLimitCounter) (window : ℕ) (history : List Call)
    → 0 < c.window_length
    → Follows c.window_length c.tracked_window window
    → Represents c history
    → Represents (evict window c) history
unfolding evict
evict-Represents c window history pos (inl e) r = rw ((==_iff _ _).1 e) r
evict-Represents c window history pos (inr le) r =
    elim (Bool-cases (c.tracked_window + c.window_length == window)) [
      | inl next ↦
          rw (let e : (c.tracked_window == window) ≡ false = ground arith in e, next)
            (record {
              current = λ key. sym (
                  count_in-fresh key window history
                    (All-weaken (λ call p. omega arith) history r.past));
              previous = λ key.
                  r.current key
                  ∙ sym (count_before-next c.window_length key c.tracked_window history)
                  ∙ ap (λ w. count_before c.window_length key w history) ((==_iff _ _).0 next);
              past = All-weaken (λ call p. inr (omega arith)) history r.past;
            })
      | inr jump ↦
          rw (let e : (c.tracked_window == window) ≡ false = ground arith in e, jump)
            (record {
              current = λ key. sym (
                  count_in-fresh key window history
                    (All-weaken (λ call p. omega arith) history r.past));
              previous = λ key. sym (
                  count_before-gap c.window_length key window history
                    (All-weaken (λ call p. ground arith) history r.past));
              past = All-weaken (λ call p. inr (omega arith)) history r.past;
            })
    ]

evict_window : (c : LocalLimitCounter) (window : ℕ) → (evict window c).tracked_window ≡ window
unfolding evict
evict_window c window = ground arith

evict_length :
    (c : LocalLimitCounter) (window : ℕ) → (evict window c).window_length ≡ c.window_length
unfolding evict
evict_length c window = ground arith

-- A recorded amount is added to the counts of its key in its window.
increment-Represents :
    (c : LocalLimitCounter) (key : Text) (window amount : ℕ) (history : List Call)
    → 0 < c.window_length
    → Follows c.window_length c.tracked_window window
    → Represents c history
    → Represents (local_increment_by key window amount c).1 (increment key window amount ∷ history)
increment-Represents c key window amount history pos f r =
    let e = evict_window c window in
    let l = evict_length c window in
    let rolled = evict-Represents c window history pos f r in
    unfold local_increment_by count_in count_before in
    record {
      current = λ k. ground (arith, rolled.current k);
      previous = λ k. ground (arith, rolled.previous k);
      past = (inl (sym e), rolled.past);
    }

read-Represents :
    (c : LocalLimitCounter) (key : Text) (window : ℕ) (history : List Call)
    → 0 < c.window_length
    → Follows c.window_length c.tracked_window window
    → Represents c history
    → Represents (local_get key window 0 c).1 (read key window ∷ history)
read-Represents c key window history pos f r =
    let e = evict_window c window in
    let rolled = evict-Represents c window history pos f r in
    unfold local_get count_in count_before in
    record {
      current = rolled.current;
      previous = rolled.previous;
      past = (inl (sym e), rolled.past);
    }

replay_window :
    (now length : ℕ) (history : List Call)
    → (replay (new_local_limit_counter now length) history).tracked_window
      ≡ latest (truncate now length) history
unfolding replay new_local_limit_counter local_increment_by local_get
replay_window now length [] = refl
replay_window now length (increment key window amount ∷ earlier) = evict_window _ window
replay_window now length (read key window ∷ earlier) = evict_window _ window

replay_length :
    (now length : ℕ) (history : List Call)
    → (replay (new_local_limit_counter now length) history).window_length ≡ length
unfolding replay new_local_limit_counter local_increment_by local_get
replay_length now length [] = refl
replay_length now length (increment key window amount ∷ earlier) =
    evict_length _ window ∙ replay_length now length earlier
replay_length now length (read key window ∷ earlier) =
    evict_length _ window ∙ replay_length now length earlier

replay-Represents :
    (now length : ℕ) (history : List Call)
    → 0 < length
    → InOrder length (truncate now length) history
    → Represents (replay (new_local_limit_counter now length) history) history
unfolding replay
replay-Represents now length [] pos ordered =
    unfold new_local_limit_counter count_in count_before in
    record { current = λ key. refl; previous = λ key. refl; past = tt }
replay-Represents now length (increment key window amount ∷ earlier) pos (f, ordered) =
    increment-Represents (replay (new_local_limit_counter now length) earlier) key window amount
      earlier (rw (replay_length now length earlier) pos)
      (rw (replay_length now length earlier, replay_window now length earlier) f)
      (replay-Represents now length earlier pos ordered)
replay-Represents now length (read key window ∷ earlier) pos (f, ordered) =
    read-Represents (replay (new_local_limit_counter now length) earlier) key window earlier
      (rw (replay_length now length earlier) pos)
      (rw (replay_length now length earlier, replay_window now length earlier) f)
      (replay-Represents now length earlier pos ordered)

-- After any history of calls whose windows are in order, `Get` answers the amounts that the history
-- recorded for the key in the asked window and in the one before it. The window's length is
-- positive, and the asked window follows the history's last.
pub local_get-replay :
    (now length : ℕ) (history : List Call) (key : Text) (window previous : ℕ)
    → 0 < length
    → InOrder length (truncate now length) (read key window ∷ history)
    → (local_get key window previous (replay (new_local_limit_counter now length) history)).0
      ≡ ok (count_in key window history, count_before length key window history)
local_get-replay now length history key window previous pos (f, ordered) =
    let c = replay (new_local_limit_counter now length) history in
    let l = replay_length now length history in
    let rolled =
      evict-Represents c window history (rw l pos) (rw (l, replay_window now length history) f)
        (replay-Represents now length history pos ordered) in
    let e = evict_window c window in
    let el = evict_length c window in
    unfold local_get in ground (arith, rolled.current key, rolled.previous key)

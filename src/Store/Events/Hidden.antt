-- ===== src/Store/Events/Hidden.antt =====
-- `readEventsLocked` of internal/store/store.go on a line that is too long for its scanner.
use mathlib.Core.List.{append-nil}
use wireguard_natter_helper.Prelude.{
  leb, nat_eq, Bool-cases, length, All, ℤ, ℕ, ◌+◌, ◌≤◌, ◌<◌, ◌≡◌, refl, ap, ◌∙◌, inl, inr, true,
  false, Option, List, [], ◌∷◌, ◌++◌, arith,
}
use wireguard_natter_helper.Store.Runtime.{Event}
use wireguard_natter_helper.Store.State.{Store}
use wireguard_natter_helper.Store.Events.{events}
use wireguard_natter_helper.Store.Events.Bytes.{
  max_scan_token_size, scan_from, scan_lines, decoded, newest_first,
}
use wireguard_natter_helper.Store.Events.Log.{is_plain, IsLine, log_of, scan_lines-log_of}

too_long :
    (line long rest : List ℕ)
    → All (λ c. is_plain c ≡ true) long
    → length line < max_scan_token_size
    → max_scan_token_size ≤ length line + length long
    → scan_from line (long ++ rest) ≡ []
unfolding scan_from
too_long line [] rest h short long = ground arith
too_long line (c ∷ cs) rest (x, h) short long =
    let middle : nat_eq c 10 ≡ false = ground arith in
    elim (Bool-cases (leb max_scan_token_size (length line + 1))) [
      | inl e ↦ rw (middle, e) refl
      | inr e ↦ rw (middle, e) (too_long (c ∷ line) cs rest h (ground arith) (omega (arith, long)))
    ]

-- In an event log with a line of at least 65536 bytes, reading returns the events before that
-- line only, however many follow it.
pub events-hidden :
    (decode : List ℕ → Option Event) (limit : ℤ) (lines : List (List ℕ)) (long rest : List ℕ)
    (s : Store)
    → s.disk.events ≡ log_of lines ++ (long ++ rest)
    → All IsLine lines
    → All (λ c. is_plain c ≡ true) long
    → max_scan_token_size ≤ length long
    → events decode limit s ≡ newest_first limit (decoded decode lines)
unfolding events
events-hidden decode limit lines long rest s e h plain enough =
    let none_after : scan_lines (long ++ rest) ≡ [] =
      unfold scan_lines in too_long [] long rest plain (omega arith) (omega (arith, enough)) in
    let scanned : scan_lines s.disk.events ≡ lines =
      ap scan_lines e
      ∙ scan_lines-log_of lines (long ++ rest) h
      ∙ ap (λ l. lines ++ l) none_after
      ∙ append-nil lines in
    ap (λ ls. newest_first limit (decoded decode ls)) scanned

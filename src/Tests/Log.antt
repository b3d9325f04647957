-- ===== src/Tests/Log.antt =====
-- The theorems about the event log and the identifiers.
use wireguard_natter_helper.Prelude.{
  length, All, pos, ℕ, zero, suc, ◌+◌, ◌≤◌, ◌<◌, ◌≡◌, refl, true, List, [], ◌∷◌, ◌++◌, arith,
}
use wireguard_natter_helper.Store.Runtime.{zero_event}
use wireguard_natter_helper.Store.State.{Store}
use wireguard_natter_helper.Store.Events.{append_event_file_locked, events}
use wireguard_natter_helper.Store.Events.Bytes.{
  max_event_log_bytes, rotate_file_tail, decoded, newest_first,
}
use wireguard_natter_helper.Store.Events.Log.{is_plain, IsLine, log_of, events-appended}
use wireguard_natter_helper.Store.Events.Hidden.{events-hidden}
use wireguard_natter_helper.Store.Events.Rotation.{IsSuffix, rotate_file_tail-IsSuffix}
use wireguard_natter_helper.Tests.Network.{noon, network}

abbrev line : List ℕ
line = 123 ∷ 125 ∷ []

line-IsLine : IsLine line
line-IsLine = record { plain = (refl, (refl, tt)); short = ground arith }

abbrev logged : Store
logged = record network { disk = record network.disk { events = log_of (line ∷ []) } }

room : length logged.disk.events + length line < max_event_log_bytes
unfolding log_of
room = ground arith

events-appended_example :
    events noon.decode_event (pos 0) (append_event_file_locked noon zero_event logged).0
    ≡ zero_event ∷ events noon.decode_event (pos 0) logged
events-appended_example =
    events-appended noon zero_event (line ∷ []) logged refl (line-IsLine, tt) line-IsLine refl refl
      refl room

abbrev copies : ℕ → List ℕ
copies zero = []
copies (suc n) = 97 ∷ copies n

length-copies : (n : ℕ) → length (copies n) ≡ n
length-copies zero = refl
length-copies (suc n) = omega (arith, length-copies n)

copies-plain : (n : ℕ) → All (λ c. is_plain c ≡ true) (copies n)
copies-plain zero = tt
copies-plain (suc n) = (refl, copies-plain n)

abbrev hidden : Store
hidden = record network {
  disk = record network.disk {
    events = log_of (line ∷ []) ++ (copies 65536 ++ log_of (line ∷ []));
  };
}

events-hidden_example :
    events noon.decode_event (pos 0) hidden
    ≡ newest_first (pos 0) (decoded noon.decode_event (line ∷ []))
events-hidden_example =
    events-hidden noon.decode_event (pos 0) (line ∷ []) (copies 65536) (log_of (line ∷ [])) hidden
      refl (line-IsLine, tt) (copies-plain 65536) (omega (arith, length-copies 65536))

rotate_file_tail-IsSuffix_example :
    IsSuffix (1 ∷ 10 ∷ 2 ∷ 3 ∷ []) (rotate_file_tail 3 (1 ∷ 10 ∷ 2 ∷ 3 ∷ []))
    × (length (rotate_file_tail 3 (1 ∷ 10 ∷ 2 ∷ 3 ∷ [])) ≤ 3)
rotate_file_tail-IsSuffix_example = rotate_file_tail-IsSuffix 3 (1 ∷ 10 ∷ 2 ∷ 3 ∷ [])

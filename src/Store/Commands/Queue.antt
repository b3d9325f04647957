-- ===== src/Store/Commands/Queue.antt =====
-- `QueueCommand` and `NextCommand` of internal/store/store.go as a queue of commands that wait.
use wireguard_natter_helper.Map.Lookup.{get?-set}
use wireguard_natter_helper.Json.{end}
use wireguard_natter_helper.Prelude.{
  ℕ, zero, suc, ◌≤◌, err, length, eq_refl, ◌∙◌, true, Bool-cases, ok, eq_iff, inr, if◌then◌else◌,
  keep_if, String, ◌≡◌, refl, ap, ◌⊎◌, inl, Bool, none, some, List, [], ◌∷◌, ◌++◌, map, arith, ◌==◌,
}
use wireguard_natter_helper.Map.{Map, set, get_or}
use wireguard_natter_helper.Protocol.{Command}
use wireguard_natter_helper.Store.Runtime.{QueuedCommand}
use wireguard_natter_helper.Store.State.{Store, Env}
use wireguard_natter_helper.Store.Commands.{next_command, queue_command, deliver_first}

abbrev pub is_pending : QueuedCommand → Bool
is_pending q = q.status == "pending"

abbrev pub command_of : QueuedCommand → Command
command_of q = q.command

-- The commands that wait for a node
unfoldable pub pending : String → Map (List QueuedCommand) → List Command
pending node_id m = map command_of (keep_if is_pending (get_or node_id [] m))

pub keep_if-append {ℓ} :
    {A : Type ℓ} (p : A → Bool) (xs ys : List A)
    → keep_if p (xs ++ ys) ≡ keep_if p xs ++ keep_if p ys
unfolding keep_if
keep_if-append p [] ys = refl
keep_if-append p (x ∷ xs) ys = ground (arith, keep_if-append p xs ys)

pub map-append {ℓ κ} :
    {A : Type ℓ} {B : Type κ} (f : A → B) (xs ys : List A) → map f (xs ++ ys) ≡ map f xs ++ map f ys
map-append f [] ys = refl
map-append f (x ∷ xs) ys = ap (λ l. f x ∷ l) (map-append f xs ys)

pending-set :
    (node_id j : String) (queue : List QueuedCommand) (s : Store)
    → pending j (set node_id queue s.runtime.commands) ≡ (
        if node_id == j
        then map command_of (keep_if is_pending queue)
        else pending j s.runtime.commands)
unfolding pending
pending-set node_id j queue s = elim (Bool-cases (node_id == j)) [
  | inl e ↦ rw (pending, get_or, get?-set node_id j queue s.runtime.commands, e)
  | inr e ↦ rw (pending, get_or, get?-set node_id j queue s.runtime.commands, e)
]

pending-append :
    (node_id : String) (q : QueuedCommand) (s : Store)
    → is_pending q ≡ true
    → map command_of (keep_if is_pending (get_or node_id [] s.runtime.commands ++ q ∷ []))
      ≡ pending node_id s.runtime.commands ++ q.command ∷ []
unfolding pending keep_if
pending-append node_id q s e =
    let queue = get_or node_id [] s.runtime.commands in
    rw (keep_if-append is_pending queue (q ∷ []), e)
      (map-append command_of (keep_if is_pending queue) (q ∷ []))

-- Queueing a command puts it behind those that wait for its node, and leaves what waits for any
-- other node.
pub queue_command-pending :
    (env : Env) (node_id j : String) (cmd : Command) (s : Store)
    → pending j (queue_command env node_id cmd s).0.runtime.commands ≡ (
        if node_id == j
        then pending j s.runtime.commands ++ cmd ∷ []
        else pending j s.runtime.commands)
unfolding queue_command
queue_command-pending env node_id j cmd s =
    let queued : QueuedCommand = record {
      command = cmd;
      status = "pending";
      result = end;
      created_at = env.now;
    } in
    let queue = get_or node_id [] s.runtime.commands ++ queued ∷ [] in
    ground
      (arith, eq_iff node_id j, pending-set node_id j queue s, pending-append node_id queued s refl)

-- No command waits, or the first that waits is delivered and no longer waits.
deliver_first-pending :
    (queue : List QueuedCommand)
    → ((deliver_first queue ≡ none) × (keep_if is_pending queue ≡ []))
      ⊎ ((q : List QueuedCommand) × (c : Command) × (deliver_first queue ≡ some (q, c))
          × (map command_of (keep_if is_pending queue) ≡ c ∷ map command_of (keep_if is_pending q)))
unfolding deliver_first keep_if
deliver_first-pending [] = inl (refl, refl)
deliver_first-pending (x ∷ queue) = elim (deliver_first-pending queue) [
  | inl h ↦ ground arith
  | inr (q, c, h, k) ↦ ground arith
]

module _ (env : Env) (node_id : String) (s : Store) where
  -- Nothing happens where no command waits.
  pub next_command-none :
      pending node_id s.runtime.commands ≡ [] → next_command env node_id s ≡ (s, ok none)
  unfolding next_command pending
  next_command-none e = elim (deliver_first-pending (get_or node_id [] s.runtime.commands)) [
    | inl h ↦ ground arith
    | inr (q, c, h, k) ↦ ground arith
  ]

  -- The first command that waits is passed on, and waits no longer.
  pub next_command-first :
      (c : Command) (later : List Command)
      → pending node_id s.runtime.commands ≡ c ∷ later
      → env.runtime_fault ≡ none
      → ((next_command env node_id s).1 ≡ ok (some c))
        × (pending node_id (next_command env node_id s).0.runtime.commands ≡ later)
  unfolding next_command pending
  next_command-first c later e saved =
      elim (deliver_first-pending (get_or node_id [] s.runtime.commands)) [
        | inl h ↦ ground arith
        | inr (q, d, h, k) ↦
            let left : pending node_id (set node_id q s.runtime.commands)
                ≡ map command_of (keep_if is_pending q) =
              pending-set node_id node_id q s ∙ rw (eq_refl node_id) in
            ground (arith, left)
      ]

-- An agent's polls, one after another: what they bring, up to the first that brings nothing.
unfoldable pub polls : ℕ → Env → String → Store → List Command
polls zero env node_id s = []
polls (suc n) env node_id s =
    let (s', brought) = next_command env node_id s in
    let rest = polls n env node_id s' in
    elim brought [ err _ ↦ [] | ok none ↦ [] | ok (some c) ↦ c ∷ rest ]

-- Where saving succeeds, at least as many looks at a node's queue as commands wait there bring
-- all of them, once each and in the order of the queue.
pub polls-pending :
    (env : Env) (node_id : String)
    → env.runtime_fault ≡ none
    → (n : ℕ) (s : Store) → length (pending node_id s.runtime.commands) ≤ n
    → polls n env node_id s ≡ pending node_id s.runtime.commands
unfolding polls
polls-pending env node_id saved n s enough = go n s _ refl enough
  where
    go :
        (n : ℕ) (s : Store) (cs : List Command)
        → pending node_id s.runtime.commands ≡ cs
        → length cs ≤ n
        → polls n env node_id s ≡ cs
    go zero s [] e h = refl
    go zero s (c ∷ cs) e h = ground arith
    go (suc n) s [] e h = ground (arith, next_command-none env node_id s e)
    go (suc n) s (c ∷ cs) e h =
        let (brought, left) = next_command-first env node_id s c cs e saved in
        ground (arith, go n (next_command env node_id s).0 cs left)

-- ===== src/Agent/Remote/Natter.antt =====
-- Which Natter configuration an interface has after `applyRemoteDomainMembers` of
-- internal/agent/agent.go.
use wireguard_natter_helper.Prelude.{
  if◌then◌else◌, Option-cases, All, for_each, non_empty, ℤ, pos, negsuc, int_eq, String, ◌≡◌, refl,
  sym, ap, ◌∙◌, ◌≢◌, ◌⊎◌, inl, inr, true, false, ◌||◌, not, Option, none, some, List, [], ◌∷◌,
  arith, ◌==◌, eq_iff,
}
use wireguard_natter_helper.Map.{Map, get?, get_or}
use wireguard_natter_helper.Map.Lookup.{get?-set, get?-delete}
use wireguard_natter_helper.Store.Config.{DomainMember}
use wireguard_natter_helper.Agent.State.{NatterConfig, zero_natter, Config}
use wireguard_natter_helper.Agent.Remote.{
  same_strings, same_natter_config, member_natter, set_member_natter, apply_member,
  apply_remote_domain_members,
}

-- What one member says of an interface: its own configuration or none, if it is managed; what was
-- there, if it is not or is about another interface.
abbrev pub Said : Type 0
Said = Option NatterConfig

unfoldable pub said_by : String → DomainMember → Said → Said
said_by interface member before =
    if not (member.interface == interface) || not member.natter_managed
    then before
    else if member.natter_configured
    then some (member_natter member)
    else none

-- The last member that speaks of the interface decides.
unfoldable pub last_said : String → List DomainMember → Said → Said
unfolding said_by
last_said interface [] before = before
last_said interface (member ∷ members) before =
    last_said interface members (said_by interface member before)

-- A member with a Natter configuration has a command.
abbrev pub HasCommand : DomainMember → Type 0
HasCommand member = (member.natter_configured ≡ false) ⊎ (member.natter_command ≢ [])

same_strings-eq : (xs ys : List String) → same_strings xs ys ≡ true → xs ≡ ys
unfolding same_strings
same_strings-eq [] [] e = refl
same_strings-eq [] (y ∷ ys) e = cc
same_strings-eq (x ∷ xs) [] e = cc
same_strings-eq (x ∷ xs) (y ∷ ys) e = ground (arith, eq_iff x y, same_strings-eq xs ys)

int_eq-eq : (a b : ℤ) → int_eq a b ≡ true → a ≡ b
int_eq-eq (pos a) (pos b) e = ground arith
int_eq-eq (pos a) (negsuc b) e = cc
int_eq-eq (negsuc a) (pos b) e = cc
int_eq-eq (negsuc a) (negsuc b) e = ground arith

same_natter_config-eq : (a b : NatterConfig) → same_natter_config a b ≡ true → a ≡ b
unfolding same_natter_config
same_natter_config-eq a b e = ground (
  arith,
  same_strings-eq a.command b.command,
  int_eq-eq a.timeout_seconds b.timeout_seconds,
  eq_iff a.wireguard_control_method b.wireguard_control_method,
  int_eq-eq a.restart_delay_seconds b.restart_delay_seconds,
)

-- A configuration that is found to be there already is there.
same-found :
    (interface : String) (next : NatterConfig) (m : Map NatterConfig)
    → next.command ≢ []
    → same_natter_config (get_or interface zero_natter m) next ≡ true
    → get? interface m ≡ some next
same-found interface next m h e =
    let same = same_natter_config-eq (get_or interface zero_natter m) next e in
    elim (Option-cases (get? interface m)) [
      | inl k ↦ elim (h (sym (ap (λ (n : NatterConfig). n.command) (rw (get_or, k) at same)))) [ ]
      | inr (v, k) ↦ k ∙ ap some (rw (get_or, k) at same)
    ]

module _ (interface : String) where
  set_member_natter-said :
      (member : DomainMember) (m : Map NatterConfig)
      → HasCommand member
      → get? interface (set_member_natter member m) ≡ said_by interface member (get? interface m)
  unfolding set_member_natter said_by
  set_member_natter-said member m h = ground (
    arith,
    h,
    eq_iff member.interface interface,
    get?-set member.interface interface (member_natter member) m,
    get?-delete member.interface interface m,
    same-found member.interface (member_natter member) m,
  )

  apply_member-said :
      (member : DomainMember) (c : Config)
      → HasCommand member
      → non_empty interface ≡ true
      → get? interface (apply_member member c).natter_by_interface
        ≡ said_by interface member (get? interface c.natter_by_interface)
  unfolding apply_member said_by
  apply_member-said member c h n = ground (
    arith,
    eq_iff member.interface interface,
    eq_iff member.interface "",
    eq_iff interface "",
    set_member_natter-said member c.natter_by_interface h,
  )

  members-said :
      (members : List DomainMember) (c : Config)
      → All HasCommand members
      → non_empty interface ≡ true
      → get? interface (for_each apply_member members c).natter_by_interface
        ≡ last_said interface members (get? interface c.natter_by_interface)
  unfolding for_each last_said
  members-said [] c h n = refl
  members-said (member ∷ members) c (h, hs) n =
      members-said members (apply_member member c) hs n
      ∙ ap (last_said interface members) (apply_member-said member c h n)

  -- After an agent applies memberships of which those with Natter configured have a command, the
  -- Natter configuration of a named interface is what the last managed membership of it says, or
  -- what it was if there is none.
  pub apply_remote_domain_members-last :
      (members : List DomainMember) (c : Config)
      → All HasCommand members
      → non_empty interface ≡ true
      → get? interface (apply_remote_domain_members members c).natter_by_interface
        ≡ last_said interface members (get? interface c.natter_by_interface)
  unfolding apply_remote_domain_members
  apply_remote_domain_members-last members c h n = members-said members c h n

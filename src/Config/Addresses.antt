-- ===== src/Config/Addresses.antt =====
-- The lists of addresses that a configuration ends up with (config/config.go).
use text.Mathlib.TextPositions.{eq_refl}
use committer.Prelude.{String, ◌≡◌, ◌≢◌, inl, inr, true, List, [], ◌∷◌, Bool-cases, str_eq, eq_iff}
use committer.Config.{Flags, includes, get, split, set}

includes-set_self : (i : List String) (a : String) → includes (set i a) a ≡ true
unfolding includes set
includes-set_self [] a = rw (eq_refl a)
includes-set_self (c ∷ cs) a = elim (Bool-cases (str_eq c a)) [
  | inl same ↦ rw same
  | inr other ↦ rw other (includes-set_self cs a)
]

-- The configuration of a node that is not the coordinator lists the node's own address among its
-- followers, whatever the other flags are.
includes-get : (f : Flags) → f.role ≢ "coordinator" → includes (get f).followers f.nodeaddr ≡ true
unfolding get set
includes-get f ne = elim (Bool-cases (str_eq f.role "coordinator")) [
  | inl same ↦ absurd (ne ((eq_iff f.role "coordinator").0 same))
  | inr other ↦ elim (Bool-cases (includes (split f.followers) f.nodeaddr)) [
    | inl there ↦ rw (other, there) there
    | inr missing ↦ rw (other, missing) (includes-set_self (split f.followers) f.nodeaddr)
  ]
]

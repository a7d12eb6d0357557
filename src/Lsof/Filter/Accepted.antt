-- ===== src/Lsof/Filter/Accepted.antt =====
-- HW1/filter.cpp: what the options and the patterns accept.
use advanced_programmin.Prelude.{
  if◌then◌else◌, ◌≡◌, ◌⊎◌, ◌↔◌, refl, String, Bool, true, false, List, [], ◌∷◌, ◌++◌, All, inl, inr,
  Bool-cases,
}
use advanced_programmin.Lsof.{System}
use advanced_programmin.Lsof.Filter.{
  Filter, Opt, opt_c, opt_t, opt_f, opt_error, Parsed, parsed, invalid_type, usage, valid_types,
  find, parse_opts, parse_filter, no_filter, any_match, valid_param,
}

abbrev pub Typed : List String → Type 0
Typed = All (λ k. find valid_types k ≡ true)

Typed-append :
    (ks : List String) (k : String) → Typed ks → find valid_types k ≡ true → Typed (ks ++ (k ∷ []))
Typed-append [] k h e = (e, tt)
Typed-append (x ∷ ks) k h e = (h.0, Typed-append ks k h.1 e)

-- What the result of the parsing says.
abbrev pub TypedResult : Parsed → Type 0
TypedResult (parsed filter) = Typed filter.kind
TypedResult invalid_type = Unit
TypedResult usage = Unit

parse_opts-Typed :
    (filter : Filter) (opts : List Opt) → Typed filter.kind → TypedResult (parse_opts filter opts)
unfolding parse_opts
parse_opts-Typed filter [] h = h
parse_opts-Typed filter (opt_c arg ∷ opts) h = parse_opts-Typed _ opts h
parse_opts-Typed filter (opt_t arg ∷ opts) h = elim (Bool-cases (find valid_types arg)) [
  | inl e ↦ rw e (parse_opts-Typed _ opts (Typed-append filter.kind arg h e))
  | inr e ↦ rw e tt
]
parse_opts-Typed filter (opt_f arg ∷ opts) h = parse_opts-Typed _ opts h
parse_opts-Typed filter (opt_error ∷ opts) h = tt

-- Whatever the options are, the types of a filter that `parse_filter` returns are among the six
-- that it knows.
pub parse_filter-Typed : (opts : List Opt) → TypedResult (parse_filter opts)
unfolding parse_filter
parse_filter-Typed opts = parse_opts-Typed no_filter opts tt

if-same : (b : Bool) → (if b then true else true) ≡ true
if-same true = refl
if-same false = refl

module _ (sys : System) where
  -- A pattern of the list that is found in the value.
  abbrev pub Matched : String → List String → Type 0
  Matched value [] = ⊥
  Matched value (p ∷ ps) = (sys.regex_search value p ≡ true) ⊎ Matched value ps

  any_match_iff :
      (value : String) (ps : List String) → (any_match sys value ps ≡ true) ↔ Matched value ps
  unfolding any_match
  any_match_iff value [] = (λ e. cc, λ h. absurd h)
  any_match_iff value (p ∷ ps) = elim (Bool-cases (sys.regex_search value p)) [
    | inl e ↦ (λ h. inl e, λ h. rw e refl)
    | inr e ↦ (
      λ h. inr ((any_match_iff value ps).0 (rw e at h)),
      λ h. elim h [ inl q ↦ cc | inr q ↦ rw e ((any_match_iff value ps).1 q) ],
    )
  ]

  -- A value passes a list of patterns exactly where the list is empty or a pattern of it is found
  -- in the value.
  pub valid_param_iff :
      (value : String) (ps : List String)
      → (valid_param sys value ps ≡ true) ↔ ((ps ≡ []) ⊎ Matched value ps)
  unfolding valid_param
  valid_param_iff value [] = (λ e. inl refl, λ h. if-same (any_match sys value []))
  valid_param_iff value (p ∷ ps) = (
    λ e. elim (Bool-cases (any_match sys value (p ∷ ps))) [
      | inl q ↦ inr ((any_match_iff value (p ∷ ps)).0 q)
      | inr q ↦ let bad : false ≡ true = rw q at e in cc
    ],
    λ h. elim h [ inl q ↦ cc | inr q ↦ rw ((any_match_iff value (p ∷ ps)).1 q) refl ],
  )

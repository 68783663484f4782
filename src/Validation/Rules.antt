-- ===== src/Validation/Rules.antt =====
-- validation/rule.go, registry.go and field_context.go: the custom rules of a program.
use arnon.Prelude.{
  Bool, true, false, ◌≡◌, refl, ap, Option, none, some, List, [], ◌∷◌, Result, ok, err, Bool-cases,
  Option-cases, inl, inr, arith, if◌then◌else◌,
}
use arnon.Prelude.Strings.{Text, same, same_iff, same_refl}
use arnon.Problem.{ValidationErrorCode}
use arnon.Reflect.{Value}

-- What a rule sees: the value, the text behind "=" in the tag, the struct around it, the outermost one.
pub record FieldContext : Type 0 where
  pub field : Value
  pub param : Text
  pub parent : Value
  pub top : Value

abbrev pub RuleFunc : Type 0
RuleFunc = FieldContext → Bool

pub record SchemaEffect : Type 0 where
  pub format : Text
  pub pattern : Text

-- A nil pointer or function is `none`.
pub record CustomRule : Type 0 where
  pub tag : Text
  pub func : Option RuleFunc
  pub schema : Option SchemaEffect
  pub code : ValidationErrorCode
  pub message : Option (Text → Text)

pub data CustomRuleError : Type 0 where
  err_custom_rule_tag_empty err_custom_rule_func_nil : CustomRuleError

-- The map of the registered rules, by their tags: the mutex makes each call below one step.
abbrev pub CustomRules : Type 0
CustomRules = List CustomRule

-- `customRules[rule.Tag] = rule`
unfoldable pub put_rule : CustomRule → CustomRules → CustomRules
put_rule rule [] = rule ∷ []
put_rule rule (r ∷ rest) = if same r.tag rule.tag then rule ∷ rest else r ∷ put_rule rule rest

-- `RegisterCustomRule`
unfoldable pub register_custom_rule : CustomRule → CustomRules → Result CustomRuleError CustomRules
unfolding put_rule
register_custom_rule rule rules =
    if same rule.tag []
    then err err_custom_rule_tag_empty
    else elim rule.func [ none ↦ err err_custom_rule_func_nil | some f ↦ ok (put_rule rule rules) ]

-- `LookupCustomRule`
unfoldable pub lookup_custom_rule : Text → CustomRules → Option CustomRule
lookup_custom_rule tag [] = none
lookup_custom_rule tag (r ∷ rest) = if same r.tag tag then some r else lookup_custom_rule tag rest

same_test :
    (b : Bool) (rule r : CustomRule) (o : Option CustomRule)
    → (if b then some rule else o) ≡ (if b then some rule else if b then some r else o)
same_test true rule r o = refl
same_test false rule r o = refl

apart_lem : (s t u : Text) → s ≡ u → same s t ≡ false → same t u ≡ false
apart_lem s t u e h = ground (arith, same_iff t u, same_refl s)

-- The last rule that was put under a tag is found, and the rules of other tags stay.
pub lookup-put :
    (rule : CustomRule) (rules : CustomRules) (tag : Text)
    → lookup_custom_rule tag (put_rule rule rules)
      ≡ (if same rule.tag tag then some rule else lookup_custom_rule tag rules)
unfolding lookup_custom_rule put_rule
lookup-put rule [] tag = refl
lookup-put rule (r ∷ rest) tag = elim (Bool-cases (same r.tag rule.tag)) [
  | inl e ↦
      let tags : r.tag ≡ rule.tag = (same_iff r.tag rule.tag).0 e in
      let both : same r.tag tag ≡ same rule.tag tag = ap (λ t. same t tag) tags in
      rw (e, both) (same_test (same rule.tag tag) rule r (lookup_custom_rule tag rest))
  | inr other ↦ elim (Bool-cases (same r.tag tag)) [
    | inl e ↦
        let tags : r.tag ≡ tag = (same_iff r.tag tag).0 e in
        let apart : same rule.tag tag ≡ false = apart_lem r.tag rule.tag tag tags other in
        rw (other, e, apart) refl
    | inr k ↦ rw (other, k) (lookup-put rule rest tag)
  ]
]

ok_injective :
    {rules after : CustomRules}
    → ◌≡◌ {A = Result CustomRuleError CustomRules} (ok rules) (ok after)
    → after ≡ rules
ok_injective h = cc

-- A registration that succeeds is a put.
pub register-ok :
    (rule : CustomRule) (rules after : CustomRules)
    → register_custom_rule rule rules ≡ ok after
    → after ≡ put_rule rule rules
unfolding register_custom_rule
register-ok rule rules after h = elim (Bool-cases (same rule.tag [])) [
  | inl e ↦ absurd (cc (rw e at h))
  | inr e ↦ elim (Option-cases rule.func) [
    | inl k ↦ absurd (cc (rw (e, k) at h))
    | inr (f, k) ↦ ok_injective (rw (e, k) at h)
  ]
]

-- Why `New` fails: a rule that the validator does not take, with its tag, or an option.
pub data NewError : Type 0 where
  register_failed : Text → Text → NewError
  option_failed : Text → NewError

-- validator/v10's Validate, as far as `New` uses it: an empty one, and RegisterValidation.
pub record Validate (V : Type 0) : Type 0 where
  pub empty_validate : V
  pub register_validation : Text → Option RuleFunc → V → Result Text V

module _ {V : Type 0} (library : Validate V) where
  -- The loop over `registeredCustomRules`, whose order is Go's choice.
  unfoldable pub register_rules : CustomRules → V → Result NewError V
  register_rules [] v = ok v
  register_rules (r ∷ rest) v = elim (library.register_validation r.tag r.func v) [
    | err message ↦ err (register_failed r.tag message)
    | ok registered ↦ register_rules rest registered
  ]

  unfoldable pub apply_options : List (V → Result Text V) → V → Result NewError V
  apply_options [] v = ok v
  apply_options (option ∷ rest) v = elim (option v) [
    | err message ↦ err (option_failed message)
    | ok configured ↦ apply_options rest configured
  ]

  -- `New` of playground.go
  unfoldable pub new : List (V → Result Text V) → CustomRules → Result NewError V
  unfolding register_rules apply_options
  new options rules = elim (register_rules rules library.empty_validate) [
    | err e ↦ err e
    | ok registered ↦ apply_options options registered
  ]

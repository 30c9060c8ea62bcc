-- ===== src/RoleConfig/Stored.antt =====
-- What a stored configuration satisfies, and how it is evaluated.
use form_respondent_role.Prelude.{
  ℕ, suc, ◌+◌, ◌≤◌, String, Bool, true, false, List, [], ◌∷◌, Option, none, some, ok, Result-cases,
  ◌≡◌, ◌↔◌, Bool-cases, ◌⊎◌, refl, ap, inl, inr, arith, All, length, str_eq_iff,
}
use form_respondent_role.Text.{is_empty, trim}
use form_respondent_role.Text.Laws.{trim_idem}
use form_respondent_role.Json.{Host}
use form_respondent_role.Models.Condition.{Condition}
use form_respondent_role.Models.Form.{FormSchema}
use form_respondent_role.RoleConfig.{
  ConditionInput, RoleConfigBody, ParsedConfig, max_conditions, validate_condition,
  validate_conditions, parse_conditions, parse_mode, parse_view_permission, parse_role_config,
  parse_form_id,
}
use form_respondent_role.RoleConfig.Conditions.{IsSound, validate_condition-IsSound}
use form_respondent_role.Eval.{ResponseEvalData, evaluate_single, evaluate}
use form_respondent_role.Eval.Laws.{evaluate_iff}

module _ (h : Host) where
  open h use {Number}

  module _ (bound_form : Option (FormSchema h)) (form_is_quiz : Bool) where
    validate_conditions-IsSound :
        (i : ℕ) (raws : List (ConditionInput Number)) (cs : List (Condition Number))
        → validate_conditions h i raws bound_form form_is_quiz ≡ ok cs
        → All (IsSound h bound_form form_is_quiz) cs × (length cs ≡ length raws)
    unfolding validate_conditions
    validate_conditions-IsSound i [] cs e =
        let same : [] ≡ cs = ground arith in rw (← same) (tt, refl)
    validate_conditions-IsSound i (raw ∷ raws) cs e =
        elim (Result-cases (validate_condition h raw bound_form form_is_quiz)) [
          | inr (x, bad) ↦ absurd (ground arith)
          | inl (c, good) ↦
              elim (Result-cases (validate_conditions h (i + 1) raws bound_form form_is_quiz)) [
                | inr (x, bad) ↦ absurd (ground arith)
                | inl (rest, more) ↦
                    let (sound, count) = validate_conditions-IsSound (i + 1) raws rest more in
                    let same : (c ∷ rest) ≡ cs = ground arith in
                    rw (← same) (
                      (validate_condition-IsSound h bound_form form_is_quiz raw c good, sound),
                      ap suc count,
                    )
              ]
        ]

    parse_conditions-IsSound :
        (grant : Bool) (raws : List (ConditionInput Number)) (cs : List (Condition Number))
        → parse_conditions h grant raws bound_form form_is_quiz ≡ ok cs
        → All (IsSound h bound_form form_is_quiz) cs
          × ((grant ≡ true) → cs ≡ [])
          × ((grant ≡ false)
              → (1 ≤ length cs) × (length cs ≤ max_conditions) × (length cs ≡ length raws))
    unfolding parse_conditions
    parse_conditions-IsSound true raws cs e =
        let same : [] ≡ cs = ground arith in rw (← same) (tt, λ _. refl, λ no_grant. cc)
    parse_conditions-IsSound false [] cs e = cc
    parse_conditions-IsSound false (raw ∷ raws) cs e =
        let few : length (raw ∷ raws) ≤ max_conditions = ground arith in
        let found : validate_conditions h 0 (raw ∷ raws) bound_form form_is_quiz ≡ ok cs =
          ground arith in
        let (sound, count) = validate_conditions-IsSound 0 (raw ∷ raws) cs found in
        (sound, λ grant. cc, λ _. (omega arith, omega arith, count))

    -- A form id, where there is one, is trimmed and not empty.
    abbrev pub IsFormId : Option String → Type 0
    IsFormId none = Unit
    IsFormId (some id) = (is_empty id ≡ false) × (trim id ≡ id)

    abbrev pub IsPermission : Option String → Type 0
    IsPermission none = Unit
    IsPermission (some v) = (v ≡ "members") ⊎ (v ≡ "managers")

    -- What is promised of a stored configuration.
    pub record IsSoundConfig (body : RoleConfigBody Number) (p : ParsedConfig Number) : Type 0 where
      pub mode :
          ((body.mode ≡ "any_submission")
            × (p.grant_on_any_submission ≡ true)
            × (p.conditions ≡ []))
          ⊎ ((body.mode ≡ "conditions")
              × (p.grant_on_any_submission ≡ false)
              × (1 ≤ length p.conditions)
              × (length p.conditions ≤ max_conditions)
              × (length p.conditions ≡ length body.conditions))
      pub sound : All (IsSound h bound_form form_is_quiz) p.conditions
      pub form : IsFormId p.form_id
      pub view : IsPermission p.view_permission

    record ConfigSteps (body : RoleConfigBody Number) (p : ParsedConfig Number) : Type 0 where
      moded : parse_mode h body.mode ≡ ok p.grant_on_any_submission
      viewed : parse_view_permission h body.view_permission ≡ ok p.view_permission
      listed :
          parse_conditions h p.grant_on_any_submission body.conditions bound_form form_is_quiz
          ≡ ok p.conditions
      formed : p.form_id ≡ parse_form_id h body.form_id

    parse_role_config-Steps :
        (body : RoleConfigBody Number) (p : ParsedConfig Number)
        → parse_role_config h body bound_form form_is_quiz ≡ ok p
        → ConfigSteps body p
    unfolding parse_role_config
    parse_role_config-Steps body p e = ground arith

    parse_mode_cases :
        (mode : String) (grant : Bool)
        → parse_mode h mode ≡ ok grant
        → ((mode ≡ "any_submission") × (grant ≡ true)) ⊎ ((mode ≡ "conditions") × (grant ≡ false))
    parse_mode_cases mode grant e =
        ground (arith, str_eq_iff mode "any_submission", str_eq_iff mode "conditions")

    parse_form_id-IsFormId : (given : Option String) → IsFormId (parse_form_id h given)
    parse_form_id-IsFormId none = tt
    parse_form_id-IsFormId (some s) = elim (Bool-cases (is_empty (trim s))) [
      | inl empty ↦ rw empty tt
      | inr full ↦ rw full (full, trim_idem s)
    ]

    parse_view_permission-IsPermission :
        (given v : Option String) → parse_view_permission h given ≡ ok v → IsPermission v
    parse_view_permission-IsPermission given none e = tt
    parse_view_permission-IsPermission none (some v) e = cc
    parse_view_permission-IsPermission (some p) (some v) e =
        ground (arith, str_eq_iff p "members", str_eq_iff p "managers")

    -- A role configuration that `parse_role_config` lets through either grants on any submission
    -- and stores no condition, or stores one condition for each given, at least one and at most
    -- twelve; every stored condition is sound for the bound form; the form id, if any, is trimmed and not
    -- empty; and the permission, if any, is "members" or "managers".
    pub parse_role_config-IsSoundConfig :
        (body : RoleConfigBody Number) (p : ParsedConfig Number)
        → parse_role_config h body bound_form form_is_quiz ≡ ok p
        → IsSoundConfig body p
    parse_role_config-IsSoundConfig body p e =
        let s = parse_role_config-Steps body p e in
        let (sound, granted, limited) =
          parse_conditions-IsSound p.grant_on_any_submission body.conditions p.conditions
            s.listed in
        record {
          mode = elim (parse_mode_cases body.mode p.grant_on_any_submission s.moded) [
            | inl (m, g) ↦ inl (m, g, granted g)
            | inr (m, g) ↦ let (a, b, c) = limited g in inr (m, g, a, b, c)
          ];
          sound = sound;
          form = rw s.formed (parse_form_id-IsFormId body.form_id);
          view = parse_view_permission-IsPermission body.view_permission p.view_permission s.viewed;
        }

    -- With a configuration that was let through, a response qualifies exactly when the link grants
    -- on any submission or every stored condition holds: that a link without conditions qualifies
    -- nobody is never what decides.
    pub stored_evaluate_iff :
        (body : RoleConfigBody Number) (p : ParsedConfig Number) (d : ResponseEvalData Number)
        → parse_role_config h body bound_form form_is_quiz ≡ ok p
        → (evaluate h p.grant_on_any_submission p.conditions d ≡ true) ↔ (
            (p.grant_on_any_submission ≡ true)
            ⊎ ((p.grant_on_any_submission ≡ false)
                × All (λ c. evaluate_single h c d ≡ true) p.conditions))
    stored_evaluate_iff body p d e =
        let (to, from) = evaluate_iff h p.grant_on_any_submission p.conditions d in
        let m = (parse_role_config-IsSoundConfig body p e).mode in
        (
          λ t. elim (to t) [
            | inl grant ↦ inl grant
            | inr (_, hold) ↦ elim m [
              | inl (_, grant, _) ↦ inl grant
              | inr (_, no_grant, _, _, _) ↦ inr (no_grant, hold)
            ]
          ],
          elim [
            | inl grant ↦ from (inl grant)
            | inr (no_grant, hold) ↦ from (
                inr (
                  λ empty. elim m [
                    | inl (_, grant, _) ↦ absurd (cc)
                    | inr (_, _, present, _, _) ↦ absurd (grind arith)
                  ],
                  hold,
                ))
          ],
        )

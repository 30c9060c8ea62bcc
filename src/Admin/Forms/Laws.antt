-- ===== src/Admin/Forms/Laws.antt =====
-- What an accepted update leaves: a sound form, and a version that refuses the next stale one.
use form_respondent_role.Prelude.{
  ℕ, String, Bool, true, false, List, [], ◌∷◌, map, none, some, Result, ok, is_ok, any, map_or,
  ◌>>◌, refuse_if, str_eq_iff, All, Bool-cases, Option-cases, Result-cases, ◌≡◌, ◌⊎◌, inl, inr,
  refl, ap, sym, arith, if◌then◌else◌,
}
use form_respondent_role.Prelude.Int.{ℤ, pos, negsuc, eqb_ℤ, ◌+ℤ◌}
use form_respondent_role.Json.{Value, Host}
use form_respondent_role.Errors.{AppError}
use form_respondent_role.Submission.{Form}
use form_respondent_role.Admin.{Tables, Credentials, AdminService, require_writer}
use form_respondent_role.Admin.Forms.{
  UpdateBody, Warning, is_beyond, is_current, updated, with_titles, check_schema, check_fields,
  write_form, update_form,
}

-- A quiz takes one response and no edits, only a quiz has a passing score, and the limits of the
-- age, of the attempts and of the cooldown are kept.
abbrev pub IsSound : {N : Type 0} → Form N → Type 0
IsSound f =
    ((f.is_quiz ≡ false) ⊎ ((f.single_submission ≡ true) × (f.allow_edits ≡ false)))
    × ((f.is_quiz ≡ true) ⊎ (f.passing_score ≡ none))
    × (map_or false (is_beyond 1000000) f.passing_score ≡ false)
    × (is_beyond 3650 f.min_account_age_days ≡ false)
    × (is_beyond 50 f.max_attempts ≡ false)
    × (is_beyond 7776000 f.retry_cooldown_seconds ≡ false)
    × ((f.retry_policy ≡ "keep_best") ⊎ (f.retry_policy ≡ "keep_latest"))

next_version : (v w : ℤ) → eqb_ℤ v w ≡ true → eqb_ℤ (v +ℤ pos 1) w ≡ false
unfolding ◌+ℤ◌
next_version (pos n) (pos m) e = ground arith
next_version (pos n) (negsuc m) e = ground arith
next_version (negsuc n) (pos m) e = ground arith
next_version (negsuc n) (negsuc m) e = ground arith

module _ {N : Type 0} where
  updated-stale :
      (id guild_id : String) (b : UpdateBody N) (schema : Value N) (f : Form N)
      → is_current id guild_id b.version f ≡ true
      → is_current id guild_id b.version (updated b schema f) ≡ false
  unfolding updated
  updated-stale id guild_id b schema f e =
      ground (arith, next_version f.version b.version (ground arith))

  any-updated :
      (id guild_id : String) (b : UpdateBody N) (schema : Value N) (fs : List (Form N))
      → any (is_current id guild_id b.version) (
          map
            (λ (f : Form N). if is_current id guild_id b.version f then updated b schema f else f)
            fs)
        ≡ false
  any-updated id guild_id b schema [] = refl
  any-updated id guild_id b schema (f ∷ fs) =
      elim (Bool-cases (is_current id guild_id b.version f)) [
        | inl current ↦
            rw (current, updated-stale id guild_id b schema f current)
              (any-updated id guild_id b schema fs)
        | inr other ↦ rw (other, other) (any-updated id guild_id b schema fs)
      ]

-- A test that did not refuse.
past_test :
    (b : Bool) (x : AppError) (k : Result (Unit {0}) AppError)
    → (refuse_if b x >> k) ≡ ok tt
    → (b ≡ false) × (k ≡ ok tt)
past_test true x k e = absurd (cc)
past_test false x k e = (refl, e)

module _ (h : Host) (a : AdminService h) (now queue_now : ℕ) where
  open h use {Number}

  -- The fields that pass their checks make a sound form.
  updated-IsSound :
      (b : UpdateBody Number) (schema : Value Number) (f : Form Number)
      → check_fields h a now queue_now b ≡ ok tt
      → IsSound (updated b schema f)
  unfolding check_fields updated
  updated-IsSound b schema f e =
      let (age, e1) = past_test _ _ _ e in
      let (score, e2) = past_test _ _ _ e1 in
      let (url, e3) = past_test _ _ _ e2 in
      let (attempts, e4) = past_test _ _ _ e3 in
      let (wait, e5) = past_test _ _ _ e4 in
      (
        ground arith,
        ground arith,
        elim (Bool-cases b.is_quiz) [ inl quiz ↦ rw quiz score | inr survey ↦ rw survey refl ],
        age,
        attempts,
        wait,
        ground
            (arith, str_eq_iff b.retry_policy "keep_best", str_eq_iff b.retry_policy "keep_latest"),
      )

  map-IsSound :
      (id guild_id : String) (b : UpdateBody Number) (schema : Value Number)
      (fs : List (Form Number))
      → check_fields h a now queue_now b ≡ ok tt
      → All IsSound fs
      → All IsSound (
          map
            (λ (f : Form Number).
              if is_current id guild_id b.version f then updated b schema f else f)
            fs)
  map-IsSound id guild_id b schema [] e sound = tt
  map-IsSound id guild_id b schema (f ∷ fs) e (own, sound) = (
    elim (Bool-cases (is_current id guild_id b.version f)) [
      | inl current ↦ rw current (updated-IsSound b schema f e)
      | inr other ↦ rw other own
    ],
    map-IsSound id guild_id b schema fs e sound,
  )

  -- What an accepted update went through.
  abbrev IsUpdated :
      (guild_id form_id : String) → UpdateBody Number → Tables Number → Tables Number → Type 0
  IsUpdated guild_id form_id b t after =
      (id : String) × (a.parse_uuid form_id ≡ some id)
      × (check_fields h a now queue_now b ≡ ok tt)
      × (write_form h a now queue_now id guild_id b t ≡ ok after.forms)

  update_form-IsUpdated :
      (c : Credentials) (guild_id form_id : String) (b : UpdateBody Number) (t : Tables Number)
      (result : List Warning × Tables Number)
      → update_form h a now queue_now c guild_id form_id b t ≡ ok result
      → IsUpdated guild_id form_id b t result.1
  unfolding update_form
  update_form-IsUpdated c guild_id form_id b t result e =
      elim (Result-cases (require_writer h a now c guild_id)) [
        | inr (x, refused) ↦ absurd (ground arith)
        | inl (caller, allowed) ↦ elim (Option-cases (a.parse_uuid form_id)) [
          | inl bad ↦ absurd (ground arith)
          | inr (id, read) ↦ elim (Result-cases (check_schema h a now queue_now b)) [
            | inr (x, refused) ↦ absurd (ground arith)
            | inl (parsed, valid) ↦ elim (Result-cases (check_fields h a now queue_now b)) [
              | inr (x, refused) ↦ absurd (ground arith)
              | inl (u, checked) ↦
                  elim (Result-cases (write_form h a now queue_now id guild_id b t)) [
                    | inr (x, refused) ↦ absurd (ground arith)
                    | inl (forms, written) ↦ (id, read, checked, ground arith)
                  ]
            ]
          ]
        ]
      ]

  written-forms :
      (id guild_id : String) (b : UpdateBody Number) (t : Tables Number)
      (forms : List (Form Number))
      → write_form h a now queue_now id guild_id b t ≡ ok forms
      → forms
        ≡ map
            (λ (f : Form Number).
              if is_current id guild_id b.version f
              then updated b (with_titles b.title b.description b.schema) f
              else f)
            t.forms
  unfolding write_form
  written-forms id guild_id b t forms e =
      elim (Bool-cases (any (is_current id guild_id b.version) t.forms)) [
        | inl current ↦ sym (ground arith)
        | inr stale ↦ absurd (ground arith)
      ]

  stale_write :
      (id guild_id : String) (late b : UpdateBody Number) (t after : Tables Number)
      → late.version ≡ b.version
      → after.forms
        ≡ map
            (λ (f : Form Number).
              if is_current id guild_id b.version f
              then updated b (with_titles b.title b.description b.schema) f
              else f)
            t.forms
      → (forms : List (Form Number))
      → ¬ (write_form h a now queue_now id guild_id late after ≡ ok forms)
  unfolding write_form
  stale_write id guild_id late b t after same written forms e =
      let none_left : any (is_current id guild_id late.version) after.forms ≡ false =
        rw (written, same)
          (any-updated id guild_id b (with_titles b.title b.description b.schema) t.forms) in
      ground arith

  -- An accepted update of a form keeps every form sound: a quiz takes one response and no edits,
  -- only a quiz has a passing score, that score is at most 1,000,000, the age at most 3650 days,
  -- the attempts at most 50, the cooldown at most 90 days, none is negative, and the policy is known.
  pub update_form-IsSound :
      (c : Credentials) (guild_id form_id : String) (b : UpdateBody Number) (t : Tables Number)
      (result : List Warning × Tables Number)
      → update_form h a now queue_now c guild_id form_id b t ≡ ok result
      → All IsSound t.forms
      → All IsSound result.1.forms
  update_form-IsSound c guild_id form_id b t result e sound =
      let (id, read, checked, written) = update_form-IsUpdated c guild_id form_id b t result e in
      rw (written-forms id guild_id b t result.1.forms written)
        (map-IsSound id guild_id b _ t.forms checked sound)

module _ (h : Host) (a : AdminService h) (now queue_now late_now late_queue_now : ℕ) where
  open h use {Number}

  -- On the tables that an accepted update of a form left, another update of that form, by anyone,
  -- at any time and under any spelling of its id, is refused if it was made from the same version.
  pub update_form-once :
      (c d : Credentials) (guild_id form_id spelled : String) (b late : UpdateBody Number)
      (t : Tables Number) (result : List Warning × Tables Number)
      → update_form h a now queue_now c guild_id form_id b t ≡ ok result
      → a.parse_uuid spelled ≡ a.parse_uuid form_id
      → late.version ≡ b.version
      → is_ok (update_form h a late_now late_queue_now d guild_id spelled late result.1) ≡ false
  update_form-once c d guild_id form_id spelled b late t result e one_form same =
      elim (Result-cases
        (update_form h a late_now late_queue_now d guild_id spelled late result.1)) [
          | inr (x, refused) ↦ ap is_ok refused
          | inl (second, accepted) ↦
              let (id, read, checked, written) =
                update_form-IsUpdated h a now queue_now c guild_id form_id b t result e in
              let (id', read', checked', written') =
                update_form-IsUpdated h a late_now late_queue_now d guild_id spelled late result.1
                  second accepted in
              let one_id : id' ≡ id = ground arith in
              absurd (
                stale_write h a late_now late_queue_now id guild_id late b t result.1 same
                  (written-forms h a now queue_now id guild_id b t result.1.forms written)
                  second.1.forms (rw one_id at written'))
        ]

-- ===== src/RoleLogic/Upload/Whole.antt =====
-- What an upload sends.
use form_respondent_role.Prelude.{
  ℕ, suc, ◌-◌, ◌≤◌, ◌<◌, ◌⊎◌, String, false, List, [], ◌∷◌, ◌++◌, Result, ok, err, is_ok, map,
  length, leb, ◌==◌, flat_map, All, ◌≡◌, refl, ap, sym, ◌∙◌, arith, inl, inr, Bool-cases,
  Result-cases,
}
use mathlib.Core.List.{append_assoc, append-nil}
use form_respondent_role.Json.{Host}
use form_respondent_role.Errors.{AppError}
use form_respondent_role.RoleLogic.{
  Client, Call, replace_users, start_upload, upload_chunk, commit_upload, cancel_upload, request,
  opened,
}
use form_respondent_role.RoleLogic.Upload.{
  put_max_users, chunk_size, cut, chunks, upload_chunks, close, upload_users,
}

cut-whole :
    (size room : ℕ) (xs : List String)
    → (cut size room xs).0 ++ flat_map (λ chunk. chunk) (cut size room xs).1 ≡ xs
unfolding cut
cut-whole size room [] = refl
cut-whole size room (x ∷ xs) = elim (Bool-cases (room == 0)) [
  | inl full ↦ rw full (ap (λ ys. x ∷ ys) (cut-whole size (size - 1) xs))
  | inr fits ↦ rw fits (ap (λ ys. x ∷ ys) (cut-whole size (room - 1) xs))
]

cut-first : (size room : ℕ) (xs : List String) → length (cut size room xs).0 ≤ room
unfolding cut
cut-first size room [] = omega arith
cut-first size room (x ∷ xs) = elim (Bool-cases (room == 0)) [
  | inl full ↦ rw full (omega arith)
  | inr fits ↦
      let shorter = cut-first size (room - 1) xs in
      let there : suc (length (cut size (room - 1) xs).0) ≤ room = ground arith in rw fits there
]

cut-small :
    (size room : ℕ) (xs : List String)
    → 0 < size
    → All (λ chunk. length chunk ≤ size) (cut size room xs).1
unfolding cut
cut-small size room [] some_room = tt
cut-small size room (x ∷ xs) some_room = elim (Bool-cases (room == 0)) [
  | inl full ↦
      let shorter = cut-first size (size - 1) xs in
      let there : suc (length (cut size (size - 1) xs).0) ≤ size = omega arith in
      rw full (there, cut-small size (size - 1) xs some_room)
  | inr fits ↦ rw fits (cut-small size (room - 1) xs some_room)
]

nil_of : {xs : List String} → length xs ≤ 0 → xs ≡ []
nil_of {xs = []} short = refl
nil_of {xs = x ∷ xs} short = absurd (omega arith)

chunks-whole : (ids : List String) → flat_map (λ chunk. chunk) (chunks chunk_size ids) ≡ ids
unfolding cut
chunks-whole ids =
    let none_before : (cut chunk_size 0 ids).0 ≡ [] = nil_of (cut-first chunk_size 0 ids) in
    rw none_before at (cut-whole chunk_size 0 ids)

-- The requests of a session, up to its end.
abbrev pub session_calls : (id : String) → List (List String) → List Call
session_calls id cs = start_upload ∷ map (upload_chunk id) cs

map_last :
    (id : String) (cs : List (List String)) (chunk : List String)
    → map (upload_chunk id) (cs ++ chunk ∷ [])
      ≡ map (upload_chunk id) cs ++ upload_chunk id chunk ∷ []
map_last id [] chunk = refl
map_last id (d ∷ cs) chunk = ap (λ calls. upload_chunk id d ∷ calls) (map_last id cs chunk)

module _ {h : Host} (c : Client h) where
  -- The chunks that were sent, of those that the loop was to send.
  abbrev IsSent :
      (id : String) → List (List String) → Result (Unit {0}) AppError × List Call → Type 0
  IsSent id cs (r, sent) =
      (there : List (List String)) × (later : List (List String)) × (sent ≡ session_calls id there)
      × (there ++ later ≡ cs)
      × ((later ≡ []) ⊎ (is_ok r ≡ false))

  upload_chunks-IsSent :
      (id : String) (before cs : List (List String))
      → IsSent id (before ++ cs) (upload_chunks c id (session_calls id before) cs)
  unfolding upload_chunks
  upload_chunks-IsSent id before [] = (before, [], refl, refl, inl refl)
  upload_chunks-IsSent id before (chunk ∷ cs) =
      let one_more : session_calls id (before ++ chunk ∷ [])
          ≡ session_calls id before ++ upload_chunk id chunk ∷ [] =
        ap (λ calls. start_upload ∷ calls) (map_last id before chunk) in
      elim (Result-cases (request c (session_calls id before) (upload_chunk id chunk))) [
        | inl (body, accepted) ↦
            let later = upload_chunks-IsSent id (before ++ chunk ∷ []) cs in
            rw accepted (rw (one_more, append_assoc before (chunk ∷ []) cs) at later)
        | inr (e, refused) ↦
            rw refused (
              before ++ chunk ∷ [],
              cs,
              sym one_more,
              append_assoc before (chunk ∷ []) cs,
              inr refl,
            )
      ]

  -- A commit after every id was sent; or a cancellation, with an error, after some chunks.
  abbrev pub IsClosed :
      (id : String) (ids : List String)
      → List (List String)
      → Result ℕ AppError × List Call
      → Type 0
  IsClosed id ids cs (r, calls) =
      ((calls ≡ session_calls id cs ++ commit_upload id ∷ [])
        × (flat_map (λ chunk. chunk) cs ≡ ids))
      ⊎ ((calls ≡ session_calls id cs ++ cancel_upload id ∷ [])
          × (is_ok r ≡ false)
          × (rest : List String) × (flat_map (λ chunk. chunk) cs ++ rest ≡ ids))

  abbrev pub IsUpload : (ids : List String) → Result ℕ AppError × List Call → Type 0
  IsUpload ids (r, calls) =
      ((length ids ≤ put_max_users) × (calls ≡ replace_users ids ∷ []))
      ⊎ ((put_max_users < length ids)
          × (((is_ok (opened c []) ≡ false) × (is_ok r ≡ false) × (calls ≡ start_upload ∷ []))
              ⊎ ((id : String) × (cs : List (List String)) × (opened c [] ≡ ok id)
                  × All (λ chunk. length chunk ≤ chunk_size) cs
                  × IsClosed id ids cs (r, calls))))

  flat_append :
      (cs ds : List (List String))
      → flat_map (λ chunk. chunk) (cs ++ ds)
        ≡ flat_map (λ chunk. chunk) cs ++ flat_map (λ chunk. chunk) ds
  flat_append [] ds = refl
  flat_append (chunk ∷ cs) ds =
      ap (λ ids. chunk ++ ids) (flat_append cs ds)
      ∙ sym (append_assoc chunk (flat_map (λ chunk. chunk) cs) (flat_map (λ chunk. chunk) ds))

  All-first : (P : List String → Type 0) (cs ds : List (List String)) → All P (cs ++ ds) → All P cs
  All-first P [] ds every = tt
  All-first P (chunk ∷ cs) ds (one, every) = (one, All-first P cs ds every)

  close-IsClosed :
      (id : String) (ids : List String) (cs : List (List String))
      (loop : Result (Unit {0}) AppError × List Call)
      → flat_map (λ chunk. chunk) cs ≡ ids
      → All (λ chunk. length chunk ≤ chunk_size) cs
      → IsSent id cs loop
      → (there : List (List String)) × All (λ chunk. length chunk ≤ chunk_size) there
        × IsClosed id ids there (close c id loop)
  unfolding close
  close-IsClosed id ids cs (ok u, sent) whole small (there, later, same, parts, inl done) =
      let every : there ≡ cs = sym (append-nil there) ∙ (rw done at parts) in
      (
        there,
        rw every small,
        inl (ap (λ calls. calls ++ commit_upload id ∷ []) same, rw every whole),
      )
  close-IsClosed id ids cs (ok u, sent) whole small (there, later, same, parts, inr wrong) =
      absurd (ground arith)
  close-IsClosed id ids cs (err e, sent) whole small (there, later, same, parts, ending) = (
    there,
    All-first _ there later (rw (← parts) at small),
    inr (
      ap (λ calls. calls ++ cancel_upload id ∷ []) same,
      refl,
      flat_map (λ chunk. chunk) later,
      sym (flat_append there later) ∙ (rw (← parts) at whole),
    ),
  )

  -- An upload of at most 100,000 ids is one request with all of them. A longer one starts a
  -- session, and nothing else, with an error, where none is opened; where one is, the start is
  -- followed by requests of that session with at most 100,000 ids each, and last comes either its
  -- commit, where the requests held exactly the ids in their order, or its cancellation, with an
  -- error, where they held a first part of them.
  pub upload_users-IsUpload : (ids : List String) → IsUpload ids (upload_users c ids)
  unfolding upload_users
  upload_users-IsUpload ids = elim (Bool-cases (leb (length ids) put_max_users)) [
    | inl short ↦ rw short (inl (ground arith, refl))
    | inr long ↦ elim (Result-cases (opened c [])) [
      | inr (e, refused) ↦ rw (long, refused) (inr (ground arith, inl (refl, refl, refl)))
      | inl (id, session) ↦
          let cs = chunks chunk_size ids in
          let (there, small, closed) =
            close-IsClosed id ids cs (upload_chunks c id (start_upload ∷ []) cs) (chunks-whole ids)
              (cut-small chunk_size 0 ids (omega arith)) (upload_chunks-IsSent id [] cs) in
          rw (long, session) (inr (ground arith, inr (id, there, refl, small, closed)))
    ]
  ]

-- ===== src/RoleLogic/Upload.antt =====
-- services/rolelogic.rs: `upload_users`, with the calls that it sends.
pub mod Whole
use form_respondent_role.Prelude.{
  ℕ, ◌+◌, ◌-◌, String, Bool, List, [], ◌∷◌, ◌++◌, Result, ok, err, ◌>>=◌, length, leb, ◌==◌,
  if◌then◌else◌,
}
use form_respondent_role.Json.{Host}
use form_respondent_role.Errors.{AppError}
use form_respondent_role.RoleLogic.{
  Client, Call, replace_users, start_upload, upload_chunk, commit_upload, cancel_upload, request,
  user_count, opened,
}

abbrev pub put_max_users : ℕ
put_max_users = 100000

abbrev pub chunk_size : ℕ
chunk_size = 100000

-- The head of the list that the chunk before has room for, and the chunks of what follows.
abbrev pub with_first {ℓ} : {A : Type ℓ} → A → List A × List (List A) → List A × List (List A)
with_first x (chunk, later) = (x ∷ chunk, later)

abbrev pub with_new {ℓ} : {A : Type ℓ} → A → List A × List (List A) → List A × List (List A)
with_new x (chunk, later) = ([], (x ∷ chunk) ∷ later)

unfoldable pub cut {ℓ} : {A : Type ℓ} → (size room : ℕ) → List A → List A × List (List A)
cut size room [] = ([], [])
cut size room (x ∷ xs) =
    let full = cut size (size - 1) xs in
    let fits = cut size (room - 1) xs in if room == 0 then with_new x full else with_first x fits

-- `slice::chunks`.
abbrev pub chunks {ℓ} : {A : Type ℓ} → (size : ℕ) → List A → List (List A)
unfolding cut
chunks size xs = (cut size 0 xs).1

module _ {h : Host} (c : Client h) where
  -- The loop over the chunks, with the calls that were sent; it ends at the first that fails.
  abbrev pub after_chunk :
      (sent : List Call)
      → Result String AppError
      → Result (Unit {0}) AppError × List Call
      → Result (Unit {0}) AppError × List Call
  after_chunk sent (ok body) later = later
  after_chunk sent (err e) later = (err e, sent)

  unfoldable pub upload_chunks :
      (upload_id : String)
      → (sent : List Call) → List (List String)
      → Result (Unit {0}) AppError × List Call
  unfolding request
  upload_chunks id sent [] = (ok tt, sent)
  upload_chunks id sent (chunk ∷ later) =
      let now_sent = sent ++ upload_chunk id chunk ∷ [] in
      after_chunk now_sent (request c sent (upload_chunk id chunk))
        (upload_chunks id now_sent later)

  -- A session whose chunks are there is committed, any other is cancelled.
  abbrev pub close :
      (upload_id : String) → Result (Unit {0}) AppError × List Call → Result ℕ AppError × List Call
  unfolding user_count
  close id (ok u, sent) = (user_count c sent (commit_upload id), sent ++ commit_upload id ∷ [])
  close id (err e, sent) = (err e, sent ++ cancel_upload id ∷ [])

  abbrev pub in_session :
      (sent : List Call) → List String → Result String AppError → Result ℕ AppError × List Call
  unfolding upload_chunks cut close
  in_session sent ids (ok id) = close id (upload_chunks id sent (chunks chunk_size ids))
  in_session sent ids (err e) = (err e, sent)

  unfoldable pub upload_users : List String → Result ℕ AppError × List Call
  unfolding user_count opened in_session
  upload_users ids =
      if leb (length ids) put_max_users
      then (user_count c [] (replace_users ids), replace_users ids ∷ [])
      else in_session (start_upload ∷ []) ids (opened c [])

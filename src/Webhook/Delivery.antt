-- ===== src/Webhook/Delivery.antt =====
-- services/webhook.rs: one delivery, and the class of its failure.
use form_respondent_role.Prelude.{
  ℕ, String, Bool, true, false, not, ◌&&◌, List, Result, ok, err, ◌>>◌, ◌>>=◌, refuse_if, map_err,
  all, is_nil, leb, ◌==◌, if◌then◌else◌,
}
use form_respondent_role.Json.{Value}
use form_respondent_role.Webhook.Address.{IpAddr, UrlHost, is_safe_ip, is_safe_url}

-- What stands between the address and the addresses of its host.
pub data ResolveError : Type 0 where
  invalid_url missing_host timed_out lookup_failed private_address unresolved : ResolveError

pub data Failure : Type 0 where
  url_rejected : Failure
  dns_check : ResolveError → Failure
  request_failed : String → Failure
  returned : (status : ℕ) → Failure

pub record WebhookFailure : Type 0 where
  pub message : Failure
  pub terminal : Bool

abbrev is_private_address : ResolveError → Bool
is_private_address private_address = true
is_private_address _ = false

-- `lookup_host`, whose errors are those of the parsing, the look-up and its timeout, and the
-- answer of the POST, its status or the text of its error.
pub record Network (N : Type 0) : Type 0 where
  pub lookup : String → Result (List IpAddr) ResolveError
  pub post : String → Value N → Result ℕ String

module _ {N : Type 0} (u : UrlHost) (net : Network N) where
  -- The loop returns at the first address that is not safe, before it knows that there is one.
  unfoldable pub resolve_and_check : String → Result (Unit {0}) ResolveError
  unfolding is_safe_ip
  resolve_and_check url = do
    addresses ← net.lookup url
    refuse_if (not (all is_safe_ip addresses)) private_address
    refuse_if (is_nil addresses) unresolved

  abbrev is_terminal : ℕ → Bool
  is_terminal status =
      leb 400 status && (leb status 499 && (not (status == 408) && not (status == 429)))

  unfoldable pub classify : ℕ → Result (Unit {0}) WebhookFailure
  classify status =
      if leb 200 status && leb status 299
      then ok tt
      else err (record { message = returned status; terminal = is_terminal status })

  unfoldable pub deliver_once : String → Value N → Result (Unit {0}) WebhookFailure
  unfolding is_safe_url resolve_and_check classify
  deliver_once url body = do
    refuse_if (not (is_safe_url u url)) (record { message = url_rejected; terminal = true })
    map_err (λ reason. record { message = dns_check reason; terminal = is_private_address reason })
        (resolve_and_check url)
    status ←
        map_err (λ text. record { message = request_failed text; terminal = false })
          (net.post url body)
    classify status

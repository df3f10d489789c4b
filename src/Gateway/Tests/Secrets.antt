-- ===== src/Gateway/Tests/Secrets.antt =====
-- The theorems on the Setec client and the campaigns' keys, at concrete inputs.
use remote_juggler.Prelude.{
  false, ℕ, ◌-◌, ◌<◌, ◌≡◌, refl, ◌∙◌, sym, ap, arith, Option, none, some, [], ◌∷◌, ◌++◌, ◌==◌,
  nat_eq, length, take, drop, take-append, drop-append, if◌then◌else◌,
}
use remote_juggler.Prelude.Int.{pos}
use remote_juggler.Text.{Text, lit, text_eq, same}
use remote_juggler.Dict.{Dict, lookup, insert}
use remote_juggler.Result.{Result, ok, err}
use remote_juggler.Http.{HttpResponse, Transport}
use remote_juggler.Gateway.Setec.{
  CachedSecret, SetecClient, Secret, Codecs, get, put, api_request, default_poll_interval,
}
use remote_juggler.Gateway.Setec.Cache.{get-put}
use remote_juggler.Gateway.Setec.Refines.{Server, Doubt, PutEffect, accepted}
use remote_juggler.Gateway.Campaigns.{campaign_of_key, campaign_key}
use remote_juggler.Gateway.Campaigns.Statuses.{campaign_of_key-campaign_key}

-- The body of a put: the length of the name, the name, and the value.
abbrev put_body : Text → Text → Text
put_body full value = length full ∷ full ++ value

abbrev put_held : Text → Dict Text → Dict Text
put_held [] w = w
put_held (n ∷ s) w = insert (take n s) (drop n s) w

abbrev status_of : Option Text → HttpResponse
status_of none = record { status_code = 404; body = []; read_error = none }
status_of (some v) = record { status_code = 200; body = v; read_error = none }

abbrev put_url : Text
put_url = lit "s/api/put"

-- A server whose state is the map of its secrets.
abbrev server_transport : Transport (Dict Text)
server_transport = record {
  new_request = λ q. none;
  send = λ q w.
      if q.url == put_url
      then (ok (record { status_code = 200; body = []; read_error = none }), put_held q.body w)
      else (ok (status_of (lookup q.body w)), w);
}

abbrev codecs : Codecs (Dict Text)
codecs = record {
  clock = λ w. length w;
  marshal_name = λ s. s;
  marshal_put = put_body;
  decode_secret = λ r. ok (record { value = r.body; version = pos 1 });
  unmarshal_entries = λ s. ok [];
  unmarshal_wrapped = λ s. ok [];
  decode_info = λ r. ok [];
  encode_value = λ s. s;
  decode_value = λ s. some s;
  quote = λ s. s;
}

asked :
    (full : Text) (w : Dict Text)
    → server_transport.send (api_request (lit "s") (lit "/api/get") full) w
      ≡ (ok (status_of (lookup full w)), w)
unfolding api_request lit same
asked full w = refl

written :
    (full v : Text) (w : Dict Text)
    → server_transport.send (api_request (lit "s") (lit "/api/put") (put_body full v)) w
      ≡ (ok (record { status_code = 200; body = []; read_error = none }), insert full v w)
unfolding api_request lit same
written full v w = rw (take-append full v, drop-append full v) refl

abbrev code_of : Result HttpResponse → ℕ
code_of (ok r) = r.status_code
code_of (err e) = 0

abbrev body_of : Result HttpResponse → Text
body_of (ok r) = r.body
body_of (err e) = []

abbrev value_of : Result Secret → Text
value_of (ok s) = s.value
value_of (err e) = []

found_value :
    (o : Option Text) (r : HttpResponse) (s : Secret)
    → ok (status_of o) ≡ ok r
    → r.status_code ≡ 200
    → codecs.decode_secret r ≡ ok s
    → (v : Text) × (o ≡ some v) × (s.value ≡ v)
found_value none r s e status decoded =
    let code : 404 ≡ r.status_code = ap code_of e in absurd (omega (arith, code, status))
found_value (some v) r s e status decoded =
    (v, refl, sym (ap value_of decoded) ∙ sym (ap body_of e))

put_written :
    (full v : Text) (w : Dict Text)
    → let (a, w') =
        server_transport.send
          (api_request (lit "s") (lit "/api/put") (codecs.marshal_put full (codecs.encode_value v)))
          w in
      PutEffect (accepted a) full v w w'
put_written full v w = rw (written full v w) refl

abbrev a_server : Server server_transport codecs (lit "s")
a_server = record {
  held = λ w. w;
  encode-decode = λ v. refl;
  get_keeps = λ full w. ap (λ p. p.1) (asked full w);
  get_answer = λ full w r s e status decoded.
      found_value (lookup full w) r s (sym (ap (λ p. p.0) (asked full w)) ∙ e) status decoded;
  put_effect = λ full v w. put_written full v w;
}

abbrev a_client : SetecClient
a_client = record {
  base_url = lit "s";
  prefix = lit "rj/";
  cache = [];
  poll_interval = default_poll_interval;
}

abbrev no_secrets : Dict Text
no_secrets = []

abbrev no_doubt : Doubt
no_doubt full = false

put_done : (put server_transport codecs (lit "pat") (lit "t0k") a_client []).0 ≡ none
unfolding put api_request lit same
put_done = refl

put_young :
    0 - length (put server_transport codecs (lit "pat") (lit "t0k") a_client []).1.1
    < default_poll_interval
put_young = omega arith

abbrev a_secret : CachedSecret
a_secret = record { value = lit "t0k"; version = pos 1; fetched_at = 0 }

abbrev warm_client : SetecClient
warm_client = record a_client { cache = (lit "rj/pat", a_secret) ∷ [] }

pat_cached : lookup (warm_client.prefix ++ lit "pat") warm_client.cache ≡ some a_secret
unfolding lookup lit same
pat_cached = refl

get-put_example :
    let (e, (c', w')) = put server_transport codecs (lit "pat") (lit "t0k") a_client [] in
    get server_transport codecs (lit "pat") c' [] ≡ (ok (lit "t0k"), (c', []))
get-put_example =
    get-put server_transport codecs (lit "pat") (lit "t0k") a_client [] [] put_done put_young

campaign_of_key-campaign_key_example :
    campaign_of_key (campaign_key (lit "oc-audit")) ≡ some (lit "oc-audit")
unfolding lit
campaign_of_key-campaign_key_example = campaign_of_key-campaign_key (lit "oc-audit") refl

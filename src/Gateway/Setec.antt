-- ===== src/Gateway/Setec.antt =====
-- The Setec client of gateway/setec_client.go: secrets of a server behind a cache. Times are
-- nanoseconds.
pub mod Cache
pub mod Refines
use remote_juggler.Prelude.{
  ℕ, ◌-◌, ◌*◌, ◌^◌, Bool, true, false, Option, none, some, List, [], ◌∷◌, ◌++◌, map, not, ltb, ◌==◌,
  nat_eq, length, drop, if◌then◌else◌,
}
use remote_juggler.Prelude.Int.{ℤ, pos}
use remote_juggler.Text.{Text, lit, is_empty, has_prefix, print}
use remote_juggler.Dict.{Dict, lookup, insert}
use remote_juggler.Result.{Result, ok, err, ◌>>=◌, wrap}
use remote_juggler.Http.{HttpRequest, HttpResponse, Transport, exchange, read_all}

pub record CachedSecret : Type 0 where
  pub value : Text
  pub version : ℤ
  pub fetched_at : ℕ

pub record SetecClient : Type 0 where
  pub base_url : Text
  pub prefix : Text
  pub cache : Dict CachedSecret
  pub poll_interval : ℕ

-- The answer of `/api/get`
pub record Secret : Type 0 where
  pub value : Text
  pub version : ℤ

-- The uses of encoding/json, encoding/base64 and `%q`, and the clock. `none` of the decoding of base64
-- is its error.
pub record Codecs (W : Type 0) : Type 0 where
  pub clock : W → ℕ
  pub marshal_name : Text → Text
  pub marshal_put : Text → Text → Text
  pub decode_secret : HttpResponse → Result Secret
  pub unmarshal_entries : Text → Result (List Text)
  pub unmarshal_wrapped : Text → Result (List Text)
  pub decode_info : HttpResponse → Result (Dict Text)
  pub encode_value : Text → Text
  pub decode_value : Text → Option Text
  pub quote : Text → Text

-- `defaultPollInterval`, five minutes
abbrev pub default_poll_interval : ℕ
default_poll_interval = 300 * 10 ^ 9

abbrev drop_slash : ℕ → Text → Text
drop_slash a [] = if a == b'/' then [] else a ∷ []
drop_slash a (b ∷ s) = a ∷ b ∷ s

-- `strings.TrimRight` of slashes
unfoldable pub trim_slashes : Text → Text
trim_slashes [] = []
trim_slashes (a ∷ s) = drop_slash a (trim_slashes s)

-- `NewSetecClient`
unfoldable pub new_setec_client : Text → Text → SetecClient
unfolding trim_slashes
new_setec_client base_url prefix = record {
  base_url = trim_slashes base_url;
  prefix = prefix;
  cache = [];
  poll_interval = default_poll_interval;
}

-- `Configured`
abbrev pub configured : SetecClient → Bool
configured c = not (is_empty c.base_url)

-- `strings.TrimPrefix`
unfoldable pub trim_prefix : Text → Text → Text
unfolding has_prefix
trim_prefix s p = if has_prefix s p then drop (length p) s else s

abbrev not_configured : Text
not_configured = lit "setec not configured"

abbrev setec_headers : Dict Text
setec_headers =
    (lit "Content-Type", lit "application/json")
    ∷ (lit "Sec-X-Tailscale-No-Browsers", lit "setec")
    ∷ []

-- A request to a path of the server.
unfoldable pub api_request : Text → Text → Text → HttpRequest
unfolding lit
api_request base_url path body = record {
  method = lit "POST";
  url = base_url ++ path;
  headers = setec_headers;
  body = body;
}

-- The refusal of an answer whose status is not 200.
abbrev pub status_checked : Text → HttpResponse → Result HttpResponse
status_checked what r =
    if r.status_code == 200
    then ok r
    else err (what ++ (lit ": status " ++ (print r.status_code ++ (lit ": " ++ r.body))))

-- The cached value, if it is fresh.
unfoldable pub fresh : ℕ → SetecClient → Text → Option Text
unfolding lookup
fresh now c full = elim (lookup full c.cache) [
  | none ↦ none
  | some s ↦ if ltb (now - s.fetched_at) c.poll_interval then some s.value else none
]

abbrev pub remember : Text → CachedSecret → SetecClient → SetecClient
remember full s c = record c { cache = insert full s c.cache }

module _ {W : Type 0} (t : Transport W) (j : Codecs W) where
  -- The value of a secret: what is not base64 is taken as it is.
  abbrev pub secret_value : Secret → Text
  secret_value s = elim (j.decode_value s.value) [ none ↦ s.value | some v ↦ v ]

  -- A request to the server, with the name of the operation for its errors.
  abbrev pub call_api : SetecClient → Text → Text → Text → W → Result HttpResponse × W
  call_api c what path body w =
      exchange t (λ e. lit "build request: " ++ e) (λ e. what ++ (lit ": " ++ e))
        (api_request c.base_url path body) w

  abbrev pub decode_error : Text → Text
  decode_error e = lit "setec decode: " ++ e

  abbrev pub accept_secret : Text → Result HttpResponse → Result Secret
  accept_secret what o =
      o >>= λ r. status_checked what r >>= λ r. wrap decode_error (j.decode_secret r)

  abbrev pub store_secret : SetecClient → Text → W → Result Secret → Result Text × (SetecClient × W)
  store_secret c full w (err e) = (err e, (c, w))
  store_secret c full w (ok s) =
      let value = secret_value s in
      (
        ok value,
        (
          remember full (record { value = value; version = s.version; fetched_at = j.clock w }) c,
          w,
        ),
      )

  abbrev pub fetched :
      SetecClient → Text → Text → Result HttpResponse × W → Result Text × (SetecClient × W)
  fetched c what full (o, w) = store_secret c full w (accept_secret what o)

  -- The part of `Get` after the cache.
  abbrev pub fetch : Text → SetecClient → W → Result Text × (SetecClient × W)
  fetch name c w =
      let full = c.prefix ++ name in
      let what = lit "setec get " ++ j.quote name in
      fetched c what full (call_api c what (lit "/api/get") (j.marshal_name full) w)

  abbrev pub cached_or_fetched :
      Text → SetecClient → W → Option Text → Result Text × (SetecClient × W)
  cached_or_fetched name c w (some v) = (ok v, (c, w))
  cached_or_fetched name c w none = fetch name c w

  -- `Get`
  unfoldable pub get : Text → SetecClient → W → Result Text × (SetecClient × W)
  unfolding lit print insert api_request fresh
  get name c w =
      if configured c
      then cached_or_fetched name c w (fresh (j.clock w) c (c.prefix ++ name))
      else (err not_configured, (c, w))

  abbrev pub stored :
      SetecClient → Text → Text → Text → Result HttpResponse × W → Option Text × (SetecClient × W)
  stored c what full value (err e, w) = (some e, (c, w))
  stored c what full value (ok r, w) = elim (status_checked what r) [
    | err e ↦ (some e, (c, w))
    | ok r ↦ (
      none,
      (remember full (record { value = value; version = pos 0; fetched_at = j.clock w }) c, w),
    )
  ]

  -- `Put`; `none` is the nil error.
  unfoldable pub put : Text → Text → SetecClient → W → Option Text × (SetecClient × W)
  unfolding lit print insert api_request
  put name value c w =
      let full = c.prefix ++ name in
      let what = lit "setec put " ++ j.quote name in
      if configured c
      then stored c what full value
          (call_api c what (lit "/api/put") (j.marshal_put full (j.encode_value value)) w)
      else (some not_configured, (c, w))

  -- The names of the entries, in either form of the answer.
  abbrev pub entries_of : Text → Result (List Text)
  entries_of body = elim (j.unmarshal_entries body) [
    | ok names ↦ ok names
    | err e ↦
        wrap (λ e2. decode_error (e ++ (lit " (also tried wrapped: " ++ (e2 ++ lit ")"))))
          (j.unmarshal_wrapped body)
  ]

  abbrev trim_names : Text → List Text → List Text
  trim_names prefix names = map (λ s. trim_prefix s prefix) names

  abbrev listed : SetecClient → Result HttpResponse × W → Result (List Text) × W
  listed c (o, w) = (
    (o >>= λ r. status_checked (lit "setec list") r >>= λ r.
        read_all (λ e. lit "setec read: " ++ e) r >>= λ body.
        entries_of body >>= λ names. ok (trim_names c.prefix names)),
    w,
  )

  -- `List`
  unfoldable pub list : SetecClient → W → Result (List Text) × W
  unfolding lit print api_request trim_prefix
  list c w =
      if configured c
      then listed c (call_api c (lit "setec list") (lit "/api/list") (lit "{}") w)
      else (err not_configured, w)

  abbrev informed : Text → Result HttpResponse × W → Result (Dict Text) × W
  informed what (o, w) =
      ((o >>= λ r. status_checked what r >>= λ r. wrap decode_error (j.decode_info r)), w)

  -- `Info`, with the values of the metadata as they are encoded.
  unfoldable pub info : Text → SetecClient → W → Result (Dict Text) × W
  unfolding lit print api_request
  info name c w =
      let what = lit "setec info " ++ j.quote name in
      if configured c
      then informed what (call_api c what (lit "/api/info") (j.marshal_name (c.prefix ++ name)) w)
      else (err not_configured, w)

  -- The loop of `StartPolling` over the secrets, at the start and at each tick.
  unfoldable pub refresh : List Text → SetecClient × W → SetecClient × W
  unfolding get
  refresh [] s = s
  refresh (name ∷ names) (c, w) = refresh names (get name c w).1

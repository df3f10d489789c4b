-- ===== src/Http.antt =====
-- net/http as the program uses it: a request that may not be accepted, and a client that sends it,
-- over any state of the world.
use remote_juggler.Prelude.{ℕ, Option, none, some, [], ◌∷◌, Option-cases, inl, inr}
use remote_juggler.Text.{Text, lit}
use remote_juggler.Dict.{Dict}
use remote_juggler.Result.{Result, ok, err, wrap}

pub record HttpRequest : Type 0 where
  pub method : Text
  pub url : Text
  pub headers : Dict Text
  pub body : Text

-- The body as far as it can be read, and the error that ends the reading, if there is one.
pub record HttpResponse : Type 0 where
  pub status_code : ℕ
  pub body : Text
  pub read_error : Option Text

pub record Transport (W : Type 0) : Type 0 where
  -- The error of `http.NewRequest`
  pub new_request : HttpRequest → Option Text
  -- `Do` of a client
  pub send : HttpRequest → W → Result HttpResponse × W

-- `io.ReadAll` of the body, with the wrapping of its error.
abbrev pub read_all : (Text → Text) → HttpResponse → Result Text
read_all on_read r = elim r.read_error [ none ↦ ok r.body | some e ↦ err (on_read e) ]

abbrev pub as_json : Dict Text
as_json = (lit "Content-Type", lit "application/json") ∷ []

module _ {W : Type 0} (t : Transport W) where
  abbrev pub sent : (Text → Text) → Result HttpResponse × W → Result HttpResponse × W
  sent on_send (o, w) = (wrap on_send o, w)

  -- A request is made and sent, with the wrapping of either error.
  abbrev pub exchange : (Text → Text) → (Text → Text) → HttpRequest → W → Result HttpResponse × W
  exchange on_create on_send q w = elim (t.new_request q) [
    | some e ↦ (err (on_create e), w)
    | none ↦ sent on_send (t.send q w)
  ]

  -- What holds of every refusal of a request and of what comes back for it holds of an exchange.
  pub exchange-cases {κ} :
      (P : Result HttpResponse × W → Type κ) (on_create on_send : Text → Text) (q : HttpRequest)
      (w : W)
      → ((e : Text) → P (err e, w))
      → P (sent on_send (t.send q w))
      → P (exchange on_create on_send q w)
  exchange-cases P on_create on_send q w refused answered = elim (Option-cases (t.new_request q)) [
    | inl accepted ↦ rw (exchange, accepted) answered
    | inr (e, shown) ↦ rw (exchange, shown) (refused (on_create e))
  ]

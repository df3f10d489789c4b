-- ===== src/Gateway/Setec/Refines.antt =====
-- The client refines a map from names to values, over a server that nobody else writes to.
use remote_juggler.Prelude.{
  ◌≡◌, Bool, true, false, Option, none, some, ◌++◌, ◌||◌, ◌&&◌, not, ◌⊎◌, ◌==◌, nat_eq,
}
use remote_juggler.Text.{Text, lit, text_eq}
use remote_juggler.Dict.{Dict, lookup, insert}
use remote_juggler.Result.{Result, ok, err}
use remote_juggler.Http.{HttpResponse, Transport}
use remote_juggler.Gateway.Setec.{CachedSecret, SetecClient, Secret, Codecs, api_request, get, put}

-- The status of an answer is 200.
abbrev pub accepted : Result HttpResponse → Bool
accepted (ok r) = r.status_code == 200
accepted (err e) = false

-- What a put may do to the map of a server: one that was accepted is done, and of one that was not, whose
-- answer may be lost, it is open whether it is.
abbrev pub PutEffect : Bool → Text → Text → Dict Text → Dict Text → Type 0
PutEffect true full v m m' = m' ≡ insert full v m
PutEffect false full v m m' = (m' ≡ m) ⊎ (m' ≡ insert full v m)

-- A server behind the transport, of this address, and base64: what it holds, under full names. It
-- answers a request for a secret with what it holds, and holds what a put that it accepts gives it.
pub record Server {W : Type 0} (t : Transport W) (j : Codecs W) (base_url : Text) : Type 0 where
  pub held : W → Dict Text
  pub encode-decode : (v : Text) → j.decode_value (j.encode_value v) ≡ some v
  pub get_keeps :
      (full : Text) (w : W)
      → held (t.send (api_request base_url (lit "/api/get") (j.marshal_name full)) w).1 ≡ held w
  pub get_answer :
      (full : Text) (w : W) (r : HttpResponse) (s : Secret)
      → (t.send (api_request base_url (lit "/api/get") (j.marshal_name full)) w).0 ≡ ok r
      → r.status_code ≡ 200
      → j.decode_secret r ≡ ok s
      → (v : Text) × (lookup full (held w) ≡ some v) × (s.value ≡ j.encode_value v)
  pub put_effect :
      (full v : Text) (w : W)
      → let (a, w') =
          t.send
            (api_request base_url (lit "/api/put") (j.marshal_put full (j.encode_value v)))
            w in
        PutEffect (accepted a) full v (held w) (held w')

-- An operation of the client, and its outcome.
pub data Op : Type 0 where
  get_op : Text → Op
  put_op : Text → Text → Op

pub data Outcome : Type 0 where
  got : Result Text → Outcome
  wrote : Option Text → Outcome

module _ {W : Type 0} (t : Transport W) (j : Codecs W) where
  abbrev pub as_got : Result Text × (SetecClient × W) → Outcome × (SetecClient × W)
  as_got (r, s) = (got r, s)

  abbrev pub as_wrote : Option Text × (SetecClient × W) → Outcome × (SetecClient × W)
  as_wrote (e, s) = (wrote e, s)

  abbrev pub perform : Op → SetecClient × W → Outcome × (SetecClient × W)
  perform (get_op name) (c, w) = as_got (get t j name c w)
  perform (put_op name v) (c, w) = as_wrote (put t j name v c w)

-- The names of which it is open what the server holds: a put of them has failed, and none has succeeded
-- since.
abbrev pub Doubt : Type 0
Doubt = Text → Bool

abbrev pub after : Text → Op → Outcome → Doubt → Doubt
after prefix (put_op name v) (wrote (some e)) d = λ f. prefix ++ name == f || d f
after prefix (put_op name v) (wrote none) d = λ f. not (prefix ++ name == f) && d f
after prefix _ o d = d

-- The name is in doubt, or the map has this value.
abbrev pub Known : Doubt → Dict Text → Text → Text → Type 0
Known d m full v = (d full ≡ true) ⊎ (lookup full m ≡ some v)

-- The abstract store: which outcomes an operation may have on a map, and the map after it.
abbrev pub Allowed : Doubt → Text → Op → Outcome → Dict Text → Dict Text → Type 0
Allowed d prefix (get_op name) (got (ok v)) m m' = Known d m (prefix ++ name) v × (m' ≡ m)
Allowed d prefix (get_op name) (got (err e)) m m' = m' ≡ m
Allowed d prefix (get_op name) (wrote e) m m' = ⊥
Allowed d prefix (put_op name v) (got r) m m' = ⊥
Allowed d prefix (put_op name v) (wrote none) m m' = PutEffect true (prefix ++ name) v m m'
Allowed d prefix (put_op name v) (wrote (some e)) m m' = PutEffect false (prefix ++ name) v m m'

-- What is cached is in the map, but for the names in doubt.
abbrev pub CacheKnown : Doubt → Dict CachedSecret → Dict Text → Type 0
CacheKnown d cache m =
    (full : Text) (s : CachedSecret) → lookup full cache ≡ some s → Known d m full s.value

module _ {W : Type 0} (t : Transport W) (j : Codecs W) (base_url : Text)
    (server : Server t j base_url) where
  -- The client is of this server, and what it caches is what the server holds, but for the names in doubt.
  abbrev pub Coherent : Doubt → SetecClient × W → Type 0
  Coherent d (c, w) = (c.base_url ≡ base_url) × CacheKnown d c.cache (server.held w)

  -- An outcome that the abstract store allows, with a client that stays coherent.
  abbrev pub Refined : Doubt → Text → Dict Text → Op → Outcome × (SetecClient × W) → Type 0
  Refined d prefix m op (o, (c, w)) =
      Allowed d prefix op o m (server.held w) × Coherent (after prefix op o d) (c, w)

  -- Whether or not a put is sent, the server has what it says that it accepted.
  abbrev Effected : Text → Text → W → Result HttpResponse × W → Type 0
  Effected full v w (a, w') = PutEffect (accepted a) full v (server.held w) (server.held w')

  -- Whether or not a secret is asked for, the server has what it had, and answers with it.
  abbrev GetEffect : Text → W → Result HttpResponse × W → Type 0
  GetEffect full w (a, w') =
      (server.held w' ≡ server.held w)
      × ((r : HttpResponse) (s : Secret)
          → a ≡ ok r
          → r.status_code ≡ 200
          → j.decode_secret r ≡ ok s
          → (v : Text) × (lookup full (server.held w) ≡ some v) × (s.value ≡ j.encode_value v))

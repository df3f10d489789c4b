-- ===== src/Gateway/Discussions/Labels/Known.antt =====
-- Which labels are sent, and which are called missing.
use remote_juggler.Prelude.{
  ◌≡◌, refl, ap, ◌∙◌, false, Option, none, some, List, map, true, [], ◌∷◌, ◌++◌, ◌==◌,
  if◌then◌else◌,
}
use remote_juggler.Text.{Text, text_eq, lit, is_empty}
use remote_juggler.Dict.{Dict, lookup, insert, lookup-insert}
use remote_juggler.Http.{Transport}
use remote_juggler.Gateway.Values.{Values, mcp_text_result}
use remote_juggler.Gateway.Github.Request.{GithubCodecs}
use remote_juggler.Gateway.Discussions.{
  DiscussionCodecs, LabelLookup, do_graphql, with_data, with_part,
}
use remote_juggler.Gateway.Discussions.Queries.{label_mutation}
use remote_juggler.Result.{Result, ok, err}
use remote_juggler.Runner.Campaign.{is_nil}
use remote_juggler.Gateway.Discussions.Labels.{
  label_map, sorted_label, sort_labels, label_found, add_labels, labeled,
}

-- The identifier of the last label of this name, or else this.
abbrev pub last_id : Text → Option Text → List (Text × Text) → Option Text
last_id name id [] = id
last_id name id ((n, i) ∷ nodes) = last_id name (if n == name then some i else id) nodes

pub lookup-label_map :
    (name : Text) (m : Dict Text) (nodes : List (Text × Text))
    → lookup name (label_map m nodes) ≡ last_id name (lookup name m) nodes
unfolding label_map
lookup-label_map name m [] = refl
lookup-label_map name m ((n, i) ∷ nodes) =
    lookup-label_map name (insert n i m) nodes
    ∙ ap (λ id. last_id name id nodes) (lookup-insert n name i m)

abbrev id_in : List (Text × Text) → Text → Option Text
id_in nodes name = last_id name none nodes

-- The identifiers of the requested names that the repository has, in their order.
abbrev pub known_ids : List (Text × Text) → List Text → List Text
known_ids nodes [] = []
known_ids nodes (name ∷ names) = elim (id_in nodes name) [
  | none ↦ known_ids nodes names
  | some id ↦ id ∷ known_ids nodes names
]

-- The requested names that it does not have.
abbrev pub unknown_names : List (Text × Text) → List Text → List Text
unknown_names nodes [] = []
unknown_names nodes (name ∷ names) = elim (id_in nodes name) [
  | none ↦ name ∷ unknown_names nodes names
  | some id ↦ unknown_names nodes names
]

sorted_label-cases :
    (name : Text) (o : Option Text) (ids missing : List Text)
    → sorted_label name o (ids, missing) ≡ (
      elim o [ none ↦ ids | some id ↦ id ∷ ids ],
      elim o [ none ↦ name ∷ missing | some id ↦ missing ],
    )
sorted_label-cases name none ids missing = refl
sorted_label-cases name (some id) ids missing = refl

sort_labels-label_map :
    (nodes : List (Text × Text)) (names : List Text)
    → sort_labels (label_map [] nodes) names ≡ (known_ids nodes names, unknown_names nodes names)
unfolding sort_labels lookup
sort_labels-label_map nodes [] = refl
sort_labels-label_map nodes (name ∷ names) =
    ap (λ o. sorted_label name o (sort_labels (label_map [] nodes) names))
      (lookup-label_map name [] nodes)
    ∙ ap (sorted_label name (id_in nodes name)) (sort_labels-label_map nodes names)
    ∙ sorted_label-cases name (id_in nodes name) (known_ids nodes names) (unknown_names nodes names)

module _ {W J : Type 0} (t : Transport W) (v : Values J) (k : GithubCodecs W J)
    (d : DiscussionCodecs) where
  abbrev texts_of : List Text → J
  texts_of ss = v.array (map v.text ss)

  abbrev missing_part : List Text → Dict J
  missing_part missing =
      if is_nil missing then [] else (lit "missing_labels", texts_of missing) ∷ []

  -- What the tool answers when the labels that GitHub has applied are decoded like this.
  abbrev Decoded : List Text → W → Result (List Text) → Result Text × W → Type 0
  Decoded missing w1 (err e) o = o ≡ (err (lit "parse label result: " ++ e), w1)
  Decoded missing w1 (ok applied) o = o ≡ (
    mcp_text_result v (
        v.object (
          (lit "labeled", v.flag true)
          ∷ (lit "applied_labels", texts_of applied)
          ∷ missing_part missing)),
    w1,
  )

  -- What the tool answers when the request for these labels ended like this.
  abbrev pub Told : List Text → Result Text × W → Result Text × W → Type 0
  Told missing (err e, w1) o = o ≡ (mcp_text_result v (v.object ((lit "error", v.text e) ∷ [])), w1)
  Told missing (ok found, w1) o = Decoded missing w1 (d.applied_of found) o

  -- With these identifiers, one request is sent that names them all; with none, nothing is sent.
  abbrev pub Labelled : Text → List Text → List Text → W → Result Text × W → Type 0
  Labelled id [] missing w o = o ≡ (
    mcp_text_result v (
        v.object (
          (lit "error", v.text (lit "no matching labels found"))
          ∷ (lit "missing_labels", texts_of missing)
          ∷ [])),
    w,
  )
  Labelled id (i ∷ ids) missing w o =
      Told missing
        (do_graphql t v k d label_mutation
          ((lit "labelableId", v.text id) ∷ (lit "labelIds", texts_of (i ∷ ids)) ∷ []) w)
        o

  labeled-Decoded :
      (missing : List Text) (w1 : W) (r : Result (List Text))
      → Decoded missing w1 r
          (with_part t v k d (lit "parse label result: ") r (labeled t v k d missing) w1)
  labeled-Decoded missing w1 (err e) = refl
  labeled-Decoded [] w1 (ok applied) = refl
  labeled-Decoded (m ∷ ms) w1 (ok applied) = refl

  shown-Told :
      (missing : List Text) (o : Result Text × W)
      → Told missing o (
          with_data t v k d
            (λ found.
              with_part t v k d
                (lit "parse label result: ")
                (d.applied_of found)
                (labeled t v k d missing))
            o)
  shown-Told missing (err e, w1) = refl
  shown-Told missing (ok found, w1) = labeled-Decoded missing w1 (d.applied_of found)

  add_labels-Labelled :
      (id : Text) (ids missing : List Text) (w : W)
      → Labelled id ids missing w (add_labels t v k d id (ids, missing) w)
  add_labels-Labelled id [] missing w = refl
  add_labels-Labelled id (i ∷ ids) missing w = shown-Told missing _

  -- Once the discussion is found, one request is sent, for the identifiers of the requested names that the
  -- repository lists, in the order of the request, the last label of a name counting; the reply calls all other
  -- names missing, and the labels applied that GitHub answers with. If none of the names is listed, nothing
  -- is sent, and all are called missing.
  pub label_found-Labelled :
      (names : List Text) (l : LabelLookup) (w : W)
      → is_empty l.discussion_id ≡ false
      → Labelled l.discussion_id
          (known_ids l.labels names)
          (unknown_names l.labels names)
          w
          (label_found t v k d names l w)
  unfolding label_found
  label_found-Labelled names l w found =
      rw (label_found, found, sort_labels-label_map l.labels names)
        (add_labels-Labelled l.discussion_id (known_ids l.labels names)
          (unknown_names l.labels names) w)

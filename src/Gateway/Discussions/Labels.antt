-- ===== src/Gateway/Discussions/Labels.antt =====
-- `DiscussionLabel` of gateway/github_discussion_tools.go.
pub mod Known
use remote_juggler.Prelude.{true, Option, none, some, List, [], ◌∷◌, ◌++◌, map, if◌then◌else◌}
use remote_juggler.Text.{Text, lit, is_empty}
use remote_juggler.Dict.{Dict, lookup, insert}
use remote_juggler.Result.{Result, ok, err}
use remote_juggler.Http.{Transport}
use remote_juggler.Gateway.Values.{Values, mcp_text_result}
use remote_juggler.Gateway.Github.Request.{GithubCodecs}
use remote_juggler.Gateway.Discussions.Queries.{lookup_query, label_mutation}
use remote_juggler.Gateway.Discussions.{
  DiscussionCodecs, LabelLookup, do_graphql, error_result, with_data, with_part, with_number,
  number_variables,
}

-- The map from names to identifiers, as the loop fills it.
unfoldable pub label_map : Dict Text → List (Text × Text) → Dict Text
unfolding insert
label_map m [] = m
label_map m ((name, id) ∷ nodes) = label_map (insert name id m) nodes

abbrev pub sorted_label : Text → Option Text → List Text × List Text → List Text × List Text
sorted_label name none (ids, missing) = (ids, name ∷ missing)
sorted_label name (some id) (ids, missing) = (id ∷ ids, missing)

-- The identifiers of the names that the map has, and the names that it does not have.
unfoldable pub sort_labels : Dict Text → List Text → List Text × List Text
unfolding lookup
sort_labels m [] = ([], [])
sort_labels m (name ∷ names) = sorted_label name (lookup name m) (sort_labels m names)

module _ {W J : Type 0} (t : Transport W) (v : Values J) (k : GithubCodecs W J)
    (d : DiscussionCodecs) where
  abbrev texts : List Text → J
  texts ss = v.array (map v.text ss)

  abbrev missing_field : List Text → Dict J
  missing_field [] = []
  missing_field (m ∷ ms) = (lit "missing_labels", texts (m ∷ ms)) ∷ []

  abbrev pub labeled : List Text → List Text → W → Result Text × W
  labeled missing applied w = (
    mcp_text_result v (
        v.object (
          (lit "labeled", v.flag true)
          ∷ (lit "applied_labels", texts applied)
          ∷ missing_field missing)),
    w,
  )

  abbrev pub add_labels : Text → List Text × List Text → W → Result Text × W
  add_labels id ([], missing) w = (
    mcp_text_result v (
        v.object (
          (lit "error", v.text (lit "no matching labels found"))
          ∷ (lit "missing_labels", texts missing)
          ∷ [])),
    w,
  )
  add_labels id (label ∷ ids, missing) w =
      with_data t v k d
        (λ found.
          with_part t v k d (lit "parse label result: ") (d.applied_of found) (labeled missing))
        (do_graphql t v k d label_mutation
          ((lit "labelableId", v.text id) ∷ (lit "labelIds", texts (label ∷ ids)) ∷ []) w)

  -- What follows the lookup.
  unfoldable pub label_found : List Text → LabelLookup → W → Result Text × W
  unfolding lit do_graphql mcp_text_result label_mutation label_map sort_labels
  label_found names l w =
      if is_empty l.discussion_id
      then (error_result t v k d (lit "discussion not found"), w)
      else add_labels l.discussion_id (sort_labels (label_map [] l.labels) names) w

  abbrev labels_required : List Text → (W → Result Text × W) → W → Result Text × W
  labels_required [] next w = (err (lit "owner, repo, number, and labels are required"), w)
  labels_required (l ∷ ls) next w = next w

  -- `DiscussionLabel`
  unfoldable pub discussion_label : Text → W → Result Text × W
  unfolding lit do_graphql lookup_query label_found
  discussion_label args =
      with_number t v k d (lit "DiscussionLabel") args []
        (lit "owner, repo, number, and labels are required")
        (labels_required (d.arg_names args) (λ w.
          with_data t v k d
            (λ found.
              with_part t v k d (lit "parse lookup: ") (d.lookup_of found)
                (label_found (d.arg_names args)))
            (do_graphql t v k d lookup_query (number_variables t v k d args) w)))

-- ===== src/Gateway/Discussions.antt =====
-- The tools of gateway/github_discussion_tools.go: the requests to GitHub's GraphQL API and the tools
-- that read discussions; Queries has the documents, Replies and Labels the tools that write.
pub mod Queries
pub mod Replies
pub mod Labels
use remote_juggler.Prelude.{
  ℕ, ◌||◌, ltb, leb, Bool, true, false, Option, none, some, List, [], ◌∷◌, ◌++◌, length, take, ◌==◌,
  nat_eq, if◌then◌else◌,
}
use remote_juggler.Prelude.Int.{ℤ, pos, negsuc}
use remote_juggler.Text.{Text, lit, is_empty, print}
use remote_juggler.Dict.{Dict}
use remote_juggler.Result.{Result, ok, err}
use remote_juggler.Http.{HttpResponse, Transport}
use remote_juggler.Gateway.Values.{Values, mcp_text_result}
use remote_juggler.Gateway.Github.Request.{GithubCodecs, do_request, on_body, with_args, arg}
use remote_juggler.Gateway.Discussions.Queries.{list_query, get_query, search_query}

-- The `graphqlResponse`: the messages of its errors, and its data, as they stand in the body.
pub record GraphqlResponse : Type 0 where
  pub errors : List Text
  pub payload : Text

-- What `DiscussionLabel` looks up: the discussion's identifier, and the name and the identifier of each
-- label.
pub record LabelLookup : Type 0 where
  pub discussion_id : Text
  pub labels : List (Text × Text)

-- The uses of encoding/json on GitHub's answers, each with its error, and the argument `labels`.
pub record DiscussionCodecs : Type 0 where
  pub unmarshal_graphql : Text → Result GraphqlResponse
  pub discussions_of : Text → Result Text
  pub discussion_of : Text → Result Text
  pub search_of : Text → Result Text
  pub id_of : Text → Result Text
  pub comment_of : Text → Result Text
  pub lookup_of : Text → Result LabelLookup
  pub applied_of : Text → Result (List Text)
  pub arg_names : Text → List Text

-- `strings.Join` by "; "
unfoldable pub join_messages : List Text → Text
unfolding lit
join_messages [] = []
join_messages (m ∷ []) = m
join_messages (m ∷ n ∷ rest) = m ++ (lit "; " ++ join_messages (n ∷ rest))

-- The number of discussions to ask for: from 1 to 100, and else this default.
unfoldable pub first_or : ℕ → ℤ → ℤ
first_or default (negsuc n) = pos default
first_or default (pos n) = if n == 0 || ltb 100 n then pos default else pos n

abbrev pub is_positive : ℤ → Bool
is_positive (negsuc n) = false
is_positive (pos n) = ltb 0 n

module _ {W J : Type 0} (t : Transport W) (v : Values J) (k : GithubCodecs W J)
    (d : DiscussionCodecs) where
  abbrev error_detail : Text → Text
  error_detail body = if ltb 500 (length body) then take 500 body else body

  abbrev messages_or_data : GraphqlResponse → Result Text
  messages_or_data r = elim r.errors [
    | [] ↦ ok r.payload
    | m ∷ ms ↦ err (lit "graphql errors: " ++ join_messages r.errors)
  ]

  abbrev graphql_data : HttpResponse → Text → W → Result Text × W
  graphql_data r body w = (
    if r.status_code == 200
        then elim (d.unmarshal_graphql body) [
          | err e ↦ err (lit "unmarshal graphql response: " ++ e)
          | ok g ↦ messages_or_data g
        ]
        else err
            (lit "graphql returned " ++ (print r.status_code ++ (lit ": " ++ error_detail body))),
    w,
  )

  -- `doGraphQL`
  unfoldable pub do_graphql : Text → Dict J → W → Result Text × W
  unfolding lit print do_request join_messages
  do_graphql query variables w =
      elim (v.marshal
        (v.object ((lit "query", v.text query) ∷ (lit "variables", v.object variables) ∷ []))) [
          | err e ↦ (err (lit "marshal graphql: " ++ e), w)
          | ok body ↦
              on_body t v k (lit "read graphql response") graphql_data
                (do_request t v k (lit "POST") (k.api_base ++ lit "/graphql") (some body) w)
        ]

  abbrev pub error_result : Text → Result Text
  error_result e = mcp_text_result v (v.object ((lit "error", v.text e) ∷ []))

  -- An error of a query is shown as the tool's result.
  abbrev pub with_data : (Text → W → Result Text × W) → Result Text × W → Result Text × W
  with_data next (err e, w) = (error_result e, w)
  with_data next (ok found, w) = next found w

  -- A part of the data, or the error of its decoding.
  abbrev pub with_part :
      {A : Type 0} → Text → Result A → (A → W → Result Text × W) → W → Result Text × W
  with_part what (err e) next w = (err (what ++ e), w)
  with_part what (ok part) next w = next part w

  abbrev shown_as : Text → Text → W → Result Text × W
  shown_as name part w = (mcp_text_result v (v.object ((name, v.raw part) ∷ [])), w)

  abbrev pub required : Text → List Text → List Text
  required args rest = arg t v k args (lit "owner") ∷ arg t v k args (lit "repo") ∷ rest

  abbrev pub repo_variables : Text → Dict J → Dict J
  repo_variables args rest =
      (lit "owner", v.text (arg t v k args (lit "owner")))
      ∷ (lit "repo", v.text (arg t v k args (lit "repo")))
      ∷ rest

  abbrev pub number_variables : Text → Dict J
  number_variables args =
      repo_variables args ((lit "number", v.number (v.arg_number args (lit "number"))) ∷ [])

  -- The tools on one discussion want its number too.
  abbrev pub with_number :
      Text → Text → List Text → Text → (W → Result Text × W) → W → Result Text × W
  with_number tool args rest message next =
      with_args t v k tool args (required args rest) message
        (λ w. if is_positive (v.arg_number args (lit "number")) then next w else (err message, w))

  abbrev category_filter : Text → Text
  category_filter category =
      if is_empty category then [] else lit ", categoryId: " ++ k.quote category

  -- `DiscussionList`
  unfoldable pub discussion_list : Text → W → Result Text × W
  unfolding lit do_graphql mcp_text_result list_query first_or
  discussion_list args =
      with_args t v k (lit "DiscussionList") args (required args [])
        (lit "owner and repo are required")
        (λ w.
          with_data
            (λ found.
              with_part (lit "parse discussions: ") (d.discussions_of found)
                (shown_as (lit "discussions")))
            (do_graphql (list_query (category_filter (arg t v k args (lit "category"))))
              (repo_variables args
                ((lit "first", v.number (first_or 25 (v.arg_number args (lit "first")))) ∷ []))
              w))

  -- `DiscussionGet`
  unfoldable pub discussion_get : Text → W → Result Text × W
  unfolding lit do_graphql mcp_text_result get_query
  discussion_get args =
      with_number (lit "DiscussionGet") args [] (lit "owner, repo, and number are required") (λ w.
        with_data
          (λ found.
            with_part (lit "parse discussion: ") (d.discussion_of found)
              (shown_as (lit "discussion")))
          (do_graphql get_query (number_variables args) w))

  abbrev search_text : Text → Text
  search_text args =
      arg t v k args (lit "query")
      ++ (lit " repo:"
          ++ (arg t v k args (lit "owner")
              ++ (lit "/" ++ (arg t v k args (lit "repo") ++ lit " type:discussions"))))

  -- `DiscussionSearch`
  unfoldable pub discussion_search : Text → W → Result Text × W
  unfolding lit do_graphql mcp_text_result search_query first_or
  discussion_search args =
      with_args t v k (lit "DiscussionSearch") args
        (required args (arg t v k args (lit "query") ∷ []))
        (lit "owner, repo, and query are required")
        (λ w.
          with_data
            (λ found.
              with_part (lit "parse search: ") (d.search_of found) (shown_as (lit "results")))
            (do_graphql search_query
              ((lit "q", v.text (search_text args))
                ∷ (lit "first", v.number (first_or 10 (v.arg_number args (lit "first"))))
                ∷ [])
              w))

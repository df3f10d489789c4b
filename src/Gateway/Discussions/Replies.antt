-- ===== src/Gateway/Discussions/Replies.antt =====
-- `DiscussionReply` of gateway/github_discussion_tools.go.
use remote_juggler.Prelude.{true, [], ◌∷◌, if◌then◌else◌}
use remote_juggler.Text.{Text, lit, is_empty}
use remote_juggler.Result.{Result}
use remote_juggler.Http.{Transport}
use remote_juggler.Gateway.Values.{Values, mcp_text_result}
use remote_juggler.Gateway.Github.Request.{GithubCodecs, arg}
use remote_juggler.Gateway.Discussions.Queries.{id_query, reply_mutation}
use remote_juggler.Gateway.Discussions.{
  DiscussionCodecs, do_graphql, error_result, with_data, with_part, with_number, number_variables,
}

module _ {W J : Type 0} (t : Transport W) (v : Values J) (k : GithubCodecs W J)
    (d : DiscussionCodecs) where
  abbrev replied : Text → W → Result Text × W
  replied comment w = (
    mcp_text_result v
        (v.object ((lit "comment", v.raw comment) ∷ (lit "replied", v.flag true) ∷ [])),
    w,
  )

  abbrev reply_to : Text → Text → W → Result Text × W
  reply_to args id w =
      if is_empty id
      then (error_result t v k d (lit "discussion not found"), w)
      else with_data t v k d
          (λ found. with_part t v k d (lit "parse reply: ") (d.comment_of found) replied)
          (do_graphql t v k d reply_mutation
            ((lit "discussionId", v.text id)
              ∷ (lit "body", v.text (arg t v k args (lit "body")))
              ∷ [])
            w)

  -- `DiscussionReply`
  unfoldable pub discussion_reply : Text → W → Result Text × W
  unfolding lit do_graphql mcp_text_result id_query reply_mutation
  discussion_reply args =
      with_number t v k d (lit "DiscussionReply") args (arg t v k args (lit "body") ∷ [])
        (lit "owner, repo, number, and body are required")
        (λ w.
          with_data t v k d
            (λ found.
              with_part t v k d (lit "parse discussion id: ") (d.id_of found) (reply_to args))
            (do_graphql t v k d id_query (number_variables t v k d args) w))

-- ===== src/Lib.antt =====
-- remote_juggler: a model of the Go services of RemoteJuggler, the gateway, the campaign
-- runner and the agents' adapters.
--
-- The gateway (gateway) serves tools to agents: it identifies the caller, checks capabilities, resolves
-- secrets, logs every access, and counts usage, which Aperture also reports to it. The runner
-- (test/campaigns/runner) starts campaigns by schedule or by dependency, sends each to its agent or
-- calls the campaign's tools through the gateway, stores the result in Setec through the gateway, and
-- turns findings into issues and into hand-offs to other agents. An adapter (deploy/adapters) stands
-- between the runner and an agent: it takes a campaign, sends it to the agent's own interface, and
-- reports the result to the polling runner.
--
-- Files and their sources:
--   Gateway/Metering       gateway/metering.go: Record, evictSeen, Query, Flush; Totals, Keys and
--                          Pairs have the proofs on counters, on the maps' keys and on their text
--   Gateway/Identity       gateway/identity.go: the two middlewares; proofs in Grants
--   Gateway/Audit          gateway/identity.go (AuditLog) and gateway/audit_s3.go (export); proofs in
--                          Buffer and Export
--   Gateway/Newest         the loop that both Recent functions share
--   Gateway/Aperture       gateway/aperture.go: QueryUsage; proofs in Usage
--   Gateway/Webhook        gateway/aperture_webhook.go, and processMetric of gateway/aperture_sse.go;
--                          Payload has the formats, Receiver and Sources the proofs
--   Gateway/Resolver       gateway/resolver.go; proofs in Precedence
--   Runner/Campaign        test/campaigns/runner/campaign.go, with Finding of feedback.go
--   Runner/Cron            cronMatches and cronFieldMatches of test/campaigns/runner/scheduler.go
--   Runner/Scheduler       test/campaigns/runner/scheduler.go; Interface has the services that it calls,
--                          Trigger, Runs, Killed and Completion the proofs
--   Runner/Router          test/campaigns/runner/router.go; proofs in Rules and Meta
--   Runner/Dispatcher      test/campaigns/runner/dispatcher.go; Http has the messages and the libraries,
--                          Budget and Polling the proofs
--   Runner/Collector       test/campaigns/runner/collector.go; proofs in Stored and Outage
--   Runner/Feedback        the issues of test/campaigns/runner/feedback.go; proofs in Resolved
--   Gateway/Setec          gateway/setec_client.go; Cache and Refines have the proofs
--   Gateway/Values         the values that tools encode, and mcpTextResult of gateway/campaigns.go
--   Gateway/Campaigns      gateway/campaigns.go and gateway/campaign_tools.go; proofs in Statuses
--   Gateway/Proxy          handleGatewayTool of gateway/mcp_proxy.go; Rpc has HandleRPC and the lists of
--                          tools of gateway/tools.go; Audited, Rpc/Metered and Rpc/Listed the proofs;
--                          Subprocess has readLoop, SendRequest and the subscribers, with the proofs in
--                          Subprocess/Order
--   Gateway/S3             gateway/aperture_s3.go; Sign has the signature, Progress the proofs
--   Gateway/Github         gateway/github_tools.go; Request has what the tools share, Files, Branches and
--                          Issues the tools that write, Patches the proofs
--   Gateway/Discussions    gateway/github_discussion_tools.go; Queries has the documents, Replies and Labels
--                          the tools that write, Labels/Known the proofs
--   Adapters/Protocol      the results, findings and campaigns of deploy/adapters/adapter.go; proofs in
--                          Findings
--   Adapters/Adapter       the server of deploy/adapters/adapter.go; Reach has its steps and the proofs
--   Adapters/Hexstrike, Adapters/Tinyclaw, Adapters/Ironclaw: the backends of that name in deploy/adapters,
--                          with their proofs in Trace, Outcomes and Calls; Prompt has the parts of
--                          the prompts
--   Prelude, Text, Dict, Result, Http: integers, strings as lists of bytes, maps as association lists,
--                          the pair of a value and an error, and a client of net/http
--
-- State is passed explicitly. What is not in the repository (HTTP, JSON, the clock, the context of a
-- run, SHA-256, the order in which Go visits a map) is a parameter. In the runner, in the
-- adapters and where the gateway talks to a server, the state of the outside world has an arbitrary
-- type, and each call takes and returns it, so that the order of calls is part of the model. Counters of the gateway are 64-bit patterns with wrap-around. Two functions run on
-- fuel: the printing of a number, which has fewer digits than its successor, the fuel, and the count
-- of a text's places in another, where each step takes a byte at least of the length, the fuel; the
-- polling of an agent is by recursion on the number of ticks that come before its context is done.
-- Times are nanoseconds from Go's zero time. The white space that strings.TrimSpace and strings.Fields cut off
-- is that of ASCII: a text with Unicode's other spaces at its ends is outside the model.
--
-- Not modelled: goroutines other than those that may run while Flush has released its lock and the
-- runs of an adapter; logs; the Chapel subprocess behind the MCP proxy, its start and the writing
-- to it: HandleRPC takes SendRequest as a parameter; the App tokens of GitHub; the runner's
-- pull requests, publisher and HTTP API; start-up and configuration; and the parts in other languages.
pub mod Prelude
pub mod Text
pub mod Result
pub mod Dict
pub mod Http
pub mod Gateway
pub mod Runner
pub mod Adapters

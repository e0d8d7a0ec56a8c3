-- ===== src/Lib.antt =====
-- A model of the gateway of aiyolo, a server that gives clients one API in front of several providers
-- of language models, and of the server inside its workspaces, with theorems on their behaviour.
--
-- The program's parts and how they interact. A client's request goes through `forwardCompatible`
-- (internal/gateway/handlers.go): the handler authenticates the API key (internal/auth/apikey.go),
-- looks into its response cache, resolves the models that the request names to candidates, reserves
-- quota, sends the request to one candidate after the other, answers with a response, settles the
-- quota and records the usage. Keys, routes, prices, quota and usage are in a store
-- (internal/storage); the one modelled is the in-memory store. The console and the workers share
-- that store; of them only what the store keeps is modelled.
--
-- The files:
-- - Base: names that every file shares, tests on the native numbers, lists, and Go's integers.
-- - Text, Dict, Sort: Go's strings, maps and sorting, as far as the program uses them.
-- - Json: the values that encoding/json decodes into `any`; Json.Print has fmt.Sprint and json.Marshal of
--   such values, Json.Texts the readers that the gateway has for them (firstNonEmptyString, intNumber).
-- - Domain: internal/domain/types.go. Domain.ApiKeys, Quota, Routes and Usage are its structs with
--   their fields in the order of the source; Domain.Protocols has NormalizeProtocols,
--   SupportsProtocol and what a provider or a route allows; Domain.Timeouts has the timeouts.
-- - Store: internal/storage/memory.go. Store.State is the struct MemoryStore; Store.Quota has
--   ReserveQuota and SettleQuota, Store.Keys the API keys and the install tokens of Codex, Store.Routes
--   providers, routes and prices, Store.Usage the ledger, Store.Chats the chat sessions of the console,
--   Store.WorkerJobs the jobs that set up workers (internal/storage/workers_memory.go). An operation is
--   a function from a store to a store, for it runs under the store's mutex.
-- - Auth: internal/auth/apikey.go, and authenticate and authorizeAdditionalModels of
--   internal/gateway/handlers.go.
-- - Gateway: internal/gateway/handlers.go. Gateway.Cost has costForTokens and its callers,
--   Gateway.Candidates the filters and the order of the candidates, Gateway.Resolve resolveCandidates
--   and what it calls, Gateway.Cache the response cache, Gateway.Errors the classes of statuses and
--   codes, Gateway.Reads listModels, keyInfo and generation. Gateway.Forward has the loop over the
--   candidates, with the usage records in Gateway.Forward.Usage, the state, the request and the reply
--   in Gateway.Forward.Request, the settlement in Gateway.Forward.Finish, and forwardCompatible itself
--   in Gateway.Forward.Handler; Gateway.Forward.Metadata is buildRouterMetadata. Gateway.Body has what
--   the handlers read of and write into JSON bodies: Body.Request parseCompatibleRequest, Body.Usage
--   parseUsageFromJSON, mergeUsage, copySSE and zeroUsageInCachedResponse, Body.Rewrite rewriteModel and
--   injectRouterMetadata.
-- - Gateway.Responses: internal/gateway/responses_compat.go, the Responses API for providers of chat
--   completions. Roles is normalizeResponsesRequestBody; Request is responsesRequestToChatCompletions,
--   with the messages from Items and ToolCalls (normalizeChatToolCallMessages); Complete is
--   chatCompletionResponseToResponses; Stream is the state of a stream and the events that a chunk leads
--   to, Finish its end and the loop over the lines, Calls the calls of tools that a stream
--   assembles, Outputs the items of a response.
-- - Ass: internal/ass, the server inside a workspace. Ass.Ids is normalizeShellSessionID; Ass.Jobs is
--   jobs.go, with the registry in Jobs.Registry and the handlers in Jobs.Requests; Ass.Shells is
--   shell_sessions.go, with the registry and the handlers in Shells.Registry; Ass.Paths and Ass.Output are
--   the checks of paths and the limited output of server.go. Jobs and sessions send events to the
--   clients' channels (Ass.Feed), which hold 128 events. A method of a job is one
--   step, as the job's mutex orders them (Ass.Jobs says why). start, getOrCreate, and the session's close and
--   broadcast let a mutex go in between: each part of theirs is a function, and the theorems on two requests
--   at once put the parts in order.
-- - Fixtures, and the modules named Examples: concrete values, and theorems applied to them. The other
--   modules state what is proved of the module above them.
--
-- Conventions and bounds:
-- - `time.Time` is the nanoseconds since Go's zero time, as a natural number. `time.Now()` is an
--   argument of the operation; in the handler, each call has a field of `Moments`.
-- - `int` and `int64` are integers; a sum or product that a client can drive out of 64 bits is cut to
--   64 bits by `wrap64`, as Go does. Counts of requests in a minute, positions in lists and statuses
--   are natural numbers.
-- - A string is a list of code points. `strings.ToLower` folds the ASCII letters only.
-- - The output of a process is a list of bytes, and a byte is a natural number.
-- - A map is a list of entries with one entry for a key. Go ranges over a map in any order; where an
--   operation does, the theorems hold for every order of the list.
-- - `sort.Slice` and `sort.SliceStable` are a stable insertion sort.
-- - An error is a value, and it is returned before the operation's first write, so it carries no
--   store. A panic of the handler is a reply of its own, with the state that it leaves behind.
-- - A limit window's key is the pair of the key's identifier and the minute, in place of their text.
-- - A JSON body is what json.Unmarshal decodes it to. A number of it is a float64, of which the program
--   reads the integer and the printed texts, so it is the record of these.
-- - loadResponseCache lets its lock go between the look and the removal of an old entry; the model puts no
--   other request in between.
-- - `newID` draws from a supply of identifiers that is numbered; every write to a client succeeds.
-- - Every recursion is structural, but for the loop of normalizeChatToolCallMessages. Each of its rounds
--   consumes a message at least, so its fuel is the number of messages; the theorems on it hold for
--   every list of messages.
--
-- Arguments that stand for what is not modelled: SHA-256; what the network and the HTTP writer do in one
-- attempt (`Exchange`), with the usage of its response; the usage that reading a cached body yields; the
-- JSON value of a text; numericValue. They are functions without a hypothesis. Base64 is a record of two
-- functions, of which the one theorem that needs it assumes that the one undoes the other. What the system
-- answers to the start of a job or of a shell is a record of errors (`Launch`), and what it answers about a
-- path is a record of functions (`FileSystem`).
--
-- Not modelled: the Postgres store (SQL), net/http and net/url (so UpsertProxyProfile and
-- NormalizeProxyProfile), the decoding of JSON, logging, cryptography, processes, terminals and files (so
-- the rest of internal/ass), the console, the workers, the artifacts and the commands.
pub mod Base
pub mod Text
pub mod Dict
pub mod Json
pub mod Domain
pub mod Store
pub mod Ass
pub mod Auth
pub mod Sort
pub mod Gateway
pub mod Fixtures

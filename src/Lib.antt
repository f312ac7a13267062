-- ===== src/Lib.antt =====
-- titelheld names Strava activities: it queues an activity on a push event, and a scheduled sweep
-- decides, from the current title and the shape of the activity, whether it may give it a title, and
-- which. This library models that path in antt, from the event to the request that is sent to Strava,
-- and proves what makes it correct.
--
-- The parts, and how they correspond to the code (paths from the repository's root):
--   Prelude    shared names: texts as lists of code points with the functions of package strings that
--              the code uses, Go maps as association lists, stable sorting, and the methods of the
--              pipeline as functions from a world to a result and a world, with Hoare triples.
--   Store      internal/store/store.go and memory.go: the records (Pending, Naming, NamedTitle, ...) and
--              each method of Memory as a function of the state (Store/InMemory). Queue, Titles and
--              Rotation hold the theorems on the delay queue, the named log and the franchise
--              positions.
--   Classifier internal/classifier: Classify and its helpers (Classify), the title tables and tests
--              (Titles), the README's rule table as a specification, with the one exception that the code
--              makes (Spec).
--   Naming     internal/naming: attribution.go (Attribution, with describe and remove_attribution for
--              Describe and RemoveAttribution), language.go (Language), franchise.go (Franchise),
--              naming.go (Titles, with validate for Validate), repeats.go and achievements.go with the
--              prompt's OneLine (Known), figures.go (Figures, its table in Figures/Words), BuildPrompt of
--              prompt.go (Prompt).
--   Geo        internal/geo: polyline.go (Polyline), the sampling, cells and cache keys of geo.go
--              (Samples), NormalizePlaceName (PlaceName) and Describe with resolve (Describe), the tables
--              and placeFrom of nominatim.go (Nominatim), its client and limiter (Client).
--   Importer   internal/importer: Run and importOne, and the tests of style.go.
--   Logsafe    internal/logsafe: String, Strings and Block.
--   Processor  internal/processor: Sweep, processOne, skip and recordHumanTitle (Sweep, Process),
--              write.go (Write), reconcile.go (Reconcile), the filters of titles (Filter). Outside has
--              one function for each call of a dependency. Rules, Pipeline, Course, Entry and Loop carry
--              a property of the ledger (named log, queue, requests sent) through each method; Writes,
--              Once and Queued apply them. Series models complete and ask of title.go and
--              franchiseNext of context.go, over the draws of a model;
--              Series/Checks fills its tests with those of the naming layer.
--   Webhook    internal/webhook/webhook.go: process and processAfter, from the decoded event on; the
--              handshake and the routes (Handshake).
--   Strava     internal/strava/token.go and tokensource.go: Token and refreshLocked of
--              StoredTokenSource; Chain and Runs follow the refresh token through calls and restarts.
--              Client is client.go: do, its retries and its write guard.
--   Endpoint   internal/sweep/sweep.go: authenticate, bearerToken and ServeHTTP with its lock.
--   System     events and sweeps in any order, from an empty store, as a step relation.
--   Tests      the theorems at concrete inputs.
--
-- The parts interact as in the code: an event and a sweep act on one store; processOne calls the
-- classifier, the attribution functions and the store; the pipeline's own loop is structural on the list
-- of entries that are due. Each loop is recursive on a list, a text or a position in one, except
-- for four that take fuel. The removal of the attribution line has one round more than the
-- characters that the search can use; the decoder of polylines and the scan for figures have a round for
-- each character, and each round uses up one at least; the spacing of a place name has three rounds;
-- and the pages of an import have no bound in the source, so it takes any fuel. Figures/Fuel,
-- PlaceName/Rounds and Importer/Ends are about these.
--
-- Outside the model, and so a parameter that may answer each question in any way: Strava's requests, the
-- clock, the cancellation of a sweep, the failures of the store (an error may come before or after the
-- change that it reports on), the naming pipeline behind llmTitle, IEEE arithmetic, package unicode and
-- strings.EqualFold, compiled regular expressions, case folding and the normal form NFKC, SHA-256, the
-- geocoder's HTTP and JSON, the listing of activities, the exchange of a refresh token and the
-- verification of a Google token. Hypotheses on them stand in the theorems that use them: that Strava
-- answers with the activity that it is asked for, that a refresh names no athlete, that a clock does not
-- read the zero time and a full sleep lasts as long as it was asked to, that some page of a listing is
-- not full, and that a formatted number is one line.
--
-- An instant is a natural number of nanoseconds since the zero time and an identifier a natural number:
-- the int64 range and negative identifiers are left out, as no test in the modelled code depends on
-- them. An event is a step of its own, ahead of a sweep or after it. Not modelled: HTTP and JSON, log
-- lines, Firestore, what a prompt is gathered from, the facts of a description, the requests to language
-- models, the typed requests to Strava, the configuration.
pub mod Prelude
pub mod Store
pub mod Classifier
pub mod Naming
pub mod Processor
pub mod Webhook
pub mod Strava
pub mod Geo
pub mod Importer
pub mod Logsafe
pub mod Endpoint
pub mod System
pub mod Tests

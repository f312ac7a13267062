-- ===== src/Tests/Parts.antt =====
-- The theorems on the classifier, the attribution, the series, the token and the endpoint at concrete
-- inputs.
use mathlib.Core.Option.{some-injective}
use titelheld.Prelude.{
  inr, inl, Bool, ℕ, ◌≤◌, ◌<◌, ◌≡◌, ◌≢◌, ◌⊎◌, ◌↔◌, refl, sym, ap, true, false, not, ◌&&◌, ◌||◌,
  none, some, [], ◌∷◌, arith, if◌then◌else◌, In,
}
use titelheld.Prelude.Int.{pos}
use titelheld.Prelude.Text.{
  Text, codes, contains, text_eq, has_prefix, trim_space, trim_left, is_space, fields, fields_func,
  join, cut_prefix,
}
use titelheld.Prelude.Table.{lookup, insert}
use titelheld.Prelude.Action.{ok}
use titelheld.Store.{Token, Memory, new_memory, Franchise, Language}
use titelheld.Store.InMemory.{load, franchise_position, advance_franchise_past}
use titelheld.Classifier.{Activity, Verdict}
use titelheld.Classifier.Titles.{
  is_default_title, matches, renamable, default_titles, english_titles, german_titles, is_empty,
}
use titelheld.Classifier.Classify.{
  classify, never_named, is_ride, with_defaults, meets_sport_thresholds, commute_direction,
  classify_gate, classify_tier, ride_tier, titled_as, point_in, geofence_contains, decide,
  is_virtual_ride,
}
use titelheld.Classifier.Gate.{
  classify-action, classify-human_titled, classify-provisional, declined, is_none,
}
use titelheld.Classifier.Spec.{classify-first_match, first_match, rules, action_for}
use titelheld.Naming.Attribution.{describe, has_attribution, remove_attribution}
use titelheld.Naming.Attribution.RoundTrip.{remove_attribution-describe}
use titelheld.Naming.Attribution.Removal.{LineGone, remove_attribution_lem}
use titelheld.Naming.Franchise.{
  is_motif, next, next_from, same_entry, entry_core, without_article, normalize_for_match,
  fold_char, is_reserved, uses_entry, claims, claimed, guard,
}
use titelheld.Naming.Franchise.Rotation.{IsRight, next_lem, next-advance_franchise_past}
use titelheld.Naming.Franchise.Evidence.{claimed-guard}
use titelheld.Processor.{fine}
use titelheld.Processor.Filter.{to_classifier_activity}
use titelheld.Processor.Series.{Title, Model, ask, complete}
use titelheld.Processor.Series.Spending.{IsFair, complete-IsFair}
use titelheld.Strava.{Oauth, TokenSource, token}
use titelheld.Strava.Chain.{IsChain, IsLatest, new_source}
use titelheld.Strava.Runs.{start, call, Run-IsChain}
use titelheld.Endpoint.{
  Payload, bearer_token, cut_prefix_fold, equal_fold, Deps, Handler, authenticate, arrive,
  is_configured, google_issuer,
}
use titelheld.Endpoint.Access
use titelheld.Endpoint.Access.{IsBearer, authenticate_lem, request, reach-sweeping}
use titelheld.Tests.{whole_ops, ascii, config, ride}

abbrev morning : Activity
morning = to_classifier_activity (ride 42)

morning-llm : (classify whole_ops morning config).action ≡ Verdict.llm
unfolding classify classify_gate never_named with_defaults classify_tier ride_tier commute_direction
    meets_sport_thresholds titled_as point_in geofence_contains renamable matches is_default_title
    default_titles english_titles german_titles is_empty contains has_prefix text_eq trim_space
    trim_left is_space decide is_ride is_virtual_ride to_classifier_activity
morning-llm = refl

morning-named : (classify whole_ops morning config).action ≢ Verdict.skip
morning-named e = absurd (cc morning-llm)

classify-action_example :
    (never_named morning.sport_type ≡ false)
    × (contains morning.description (codes "Strain") ≡ false)
    × ((is_default_title morning.name || matches config.machine_titles morning.name) ≡ true)
classify-action_example = classify-action whole_ops morning config morning-named

classify-human_titled_example :
    (classify whole_ops morning config).human_titled
    ≡ (not (declined morning) && not (renamable config.machine_titles morning.name))
classify-human_titled_example = classify-human_titled whole_ops morning config

classify-provisional_example : (classify whole_ops morning config).provisional ≡ (
    not (declined morning)
    && is_ride morning.sport_type
    && not morning.trainer
    && not morning.commute
    && not (meets_sport_thresholds whole_ops morning (with_defaults whole_ops config))
    && is_none (commute_direction whole_ops morning (with_defaults whole_ops config))
    && is_default_title morning.name)
classify-provisional_example = classify-provisional whole_ops morning config

classify-first_match_example :
    ((classify whole_ops morning config).tier
      ≡ first_match (rules whole_ops (with_defaults whole_ops config)) morning)
    × ((classify whole_ops morning config).action ≡ (
        if renamable config.machine_titles morning.name
        then action_for
            (with_defaults whole_ops config)
            (first_match (rules whole_ops (with_defaults whole_ops config)) morning)
        else Verdict.skip))
classify-first_match_example = classify-first_match whole_ops morning config

abbrev notes : Text
notes = codes "Windy."

notes-described : (describe notes true).1 ≡ true
unfolding describe has_attribution contains has_prefix is_empty
notes-described = refl

remove_attribution-describe_example : remove_attribution (describe notes true).0 ≡ (notes, true)
remove_attribution-describe_example = remove_attribution-describe notes notes-described

remove_attribution_lem_example :
    ((remove_attribution notes).1 ≡ false) × ((remove_attribution notes).0 ≡ notes)
    ⊎ ((remove_attribution notes).1 ≡ true) × LineGone notes (remove_attribution notes).0
remove_attribution_lem_example = remove_attribution_lem notes

abbrev series : Franchise
series = record {
  name = codes "pink";
  sport_types = [];
  gear_name = [];
  titles = codes "One" ∷ codes "The Two" ∷ codes "Three" ∷ [];
  reserved = codes "One" ∷ [];
}

next_lem_example : IsRight text_eq series 0 (next text_eq series (pos 0))
next_lem_example = next_lem text_eq series 0

abbrev advanced_memory : Memory
advanced_memory = record new_memory { franchises = ((7, codes "pink"), 2) ∷ [] }

advanced : advance_franchise_past new_memory 7 (codes "pink") (pos 1) ≡ some (advanced_memory, 2)
unfolding advance_franchise_past franchise_position lookup insert
advanced = refl

offered :
    next text_eq series (pos (franchise_position advanced_memory 7 (codes "pink")))
    ≡ some (codes "Three", 2)
unfolding next next_from is_reserved same_entry text_eq trim_space trim_left is_space
    franchise_position lookup
offered = refl

next-advance_franchise_past_example : (1 < 2) × (is_reserved text_eq series (codes "Three") ≡ false)
next-advance_franchise_past_example =
    next-advance_franchise_past text_eq series new_memory advanced_memory 7 1 2 2 (codes "Three")
      advanced offered

claimed-guard_example :
    (claimed ascii (guard ascii series (codes "The Two")) (codes "Two in the Rain") ≡ none) ↔ (
      (entry : Text)
      → In entry series.titles
      → claims ascii series.gear_name (codes "Two in the Rain") entry ≡ true
      → claims ascii series.gear_name (codes "The Two") entry ≡ true)
claimed-guard_example = claimed-guard ascii series (codes "The Two") (codes "Two in the Rain")

abbrev drawn : Title
drawn = record { text = codes "Two in the Rain"; language = Language.english }

abbrev model : Model
model = record {
  unicode = ascii;
  draw = λ n offered. ok drawn;
  copies = λ t. false;
  repeats = λ t. false;
  unstated = λ offered t. false;
}

drawn-accepted : (ask model (guard ascii series (codes "The Two")) (codes "The Two") 0).0 ≡ ok drawn
unfolding ask guard claimed claims is_motif uses_entry entry_core without_article
    normalize_for_match fold_char fields fields_func join cut_prefix contains has_prefix text_eq
drawn-accepted = refl

complete-IsFair_example :
    (t : Title) × (used : Bool) × ((complete model series (codes "The Two") 0).0 ≡ ok (t, used))
    × IsFair model series (codes "The Two") (inr (inr (inl refl))) t used
complete-IsFair_example =
    complete-IsFair model series (codes "The Two") (inr (inr (inl refl))) 0 drawn drawn-accepted

abbrev pair : ℕ → Text → Token
pair athlete refresh = record {
  athlete_id = athlete;
  access_token = codes "a";
  refresh_token = refresh;
  expires_at = 0;
  scopes = [];
}

abbrev oauth : Oauth
oauth = record {
  refresh = λ n spent. ok (pair 0 (codes "r2"));
  now = λ n. n;
  store_fault = λ n. fine;
}

oauth-silent : (n : ℕ) (r : Text) (t : Token) → oauth.refresh n r ≡ ok t → t.athlete_id ≡ 0
oauth-silent n r t e = ground arith

abbrev stored : Memory
stored = record new_memory { tokens = (7, pair 7 (codes "r1")) ∷ [] }

stored-own : (t : Token) → load stored 7 ≡ some t → t.athlete_id ≡ 7
unfolding load lookup
stored-own t e = own (some-injective _ _ e)
  where
    own : pair 7 (codes "r1") ≡ t → t.athlete_id ≡ 7
    own q = ap (λ x. x.athlete_id) (sym q)

abbrev source : TokenSource
source = (token oauth (new_source stored 7 (pair 0 []) 0 [])).1

Run-IsChain_example :
    IsChain source.exchanged
    × ((source.loaded ≡ false)
        ⊎ (IsLatest source.exchanged source.cached.refresh_token
            × ((source.persisted ≡ false)
                ⊎ (load source.memory source.athlete_id ≡ some source.cached))))
Run-IsChain_example =
    Run-IsChain oauth oauth-silent source (call _ (start stored 7 (pair 0 []) 0 stored-own))

abbrev scheduler : Deps
scheduler = record {
  audience = codes "aud";
  service_account = codes "sa";
  validate = λ t a.
      some
        (record { issuer = google_issuer; email = some (codes "sa"); email_verified = some true });
}

abbrev header : Text
header = codes "bearer tok"

scheduler-is_configured : is_configured scheduler ≡ true
unfolding is_configured text_eq
scheduler-is_configured = refl

header-accepted : authenticate scheduler header ≡ none
unfolding authenticate bearer_token cut_prefix_fold equal_fold trim_space trim_left is_space text_eq
header-accepted = refl

authenticate_lem_example :
    (t : Text) × (p : Payload) × IsBearer header t
    × (scheduler.validate t scheduler.audience ≡ some p)
    × (p.issuer ≡ google_issuer)
    × (p.email ≡ some scheduler.service_account)
    × (p.email_verified ≡ some true)
authenticate_lem_example = authenticate_lem scheduler header scheduler-is_configured header-accepted

abbrev idle : Handler
idle = record { running = false; sweeping = 0 }

abbrev twice : Handler
twice = (arrive scheduler header (arrive scheduler header idle).1).1

reach-sweeping_example : (twice.sweeping ≤ 1) × ((twice.sweeping ≡ 1) ↔ (twice.running ≡ true))
reach-sweeping_example = reach-sweeping scheduler twice (
    Access.Reach.next _ _ (Access.Reach.next _ _ Access.Reach.start (request header idle))
      (request header (arrive scheduler header idle).1))

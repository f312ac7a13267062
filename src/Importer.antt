-- ===== src/Importer.antt =====
-- internal/importer: the title history, seeded from the athlete's past. The listing, the store's
-- failures, the context and the pause are outside, and answer by the number of questions so far. The
-- loop over the pages has no bound in the source, so it runs on fuel here, and `unfinished` is no answer
-- of the source.
pub mod Kept
pub mod Ends
use titelheld.Prelude.{
  ℕ, zero, suc, ◌+◌, Bool, true, false, not, ◌&&◌, ◌||◌, ◌==◌, ltb, Option, none, some, List, [],
  ◌∷◌, if◌then◌else◌, is_empty, length, contains_func,
}
use titelheld.Prelude.Text.{Text, Unicode, codes, text_eq, trim_space}
use titelheld.Prelude.Action.{Error, failed, Result, ok, err, Action, pure, fail, ◌>>=◌, ◌>>◌}
use titelheld.Store.{Time, Memory, Naming, NamedTitle, Source}
use titelheld.Store.InMemory.{mark_named, named_row}
use titelheld.Classifier.{MachineTitles}
use titelheld.Classifier.Titles.{is_default_title, matches, is_tool_title}
use titelheld.Naming.Language.{guess_language}
use titelheld.Processor.{Fault, fine, before_change, after_change}
use titelheld.Processor.Outside.{read}

-- The fields of strava.Activity that the import reads.
pub record Listed : Type 0 where
  pub id : ℕ
  pub name : Text
  pub sport_type : Text
  pub start_date : Time

-- Deps, its defaults set, and what the outside answers.
pub record Deps : Type 0 where
  pub unicode : Unicode
  pub athlete_id : ℕ
  pub machine_titles : MachineTitles
  pub template_titles : List Text
  pub per_page : ℕ
  pub list_activities : ℕ → ℕ → Result (List Listed)
  pub store_fault : ℕ → Fault
  pub cancelled : ℕ → Bool
  -- false is a pause that the context cut short
  pub pause : ℕ → Bool

-- Result
pub record Counts : Type 0 where
  pub seen : ℕ
  pub imported : ℕ
  pub skipped : ℕ
  pub not_a_ride : ℕ
  pub already_known : ℕ
  pub pages : ℕ

pub record Import : Type 0 where
  pub memory : Memory
  pub counts : Counts
  pub tick : ℕ

abbrev pub Step : Type 0 → Type 0
Step A = Action Import A

abbrev pub importable_sport_types : List Text
importable_sport_types = codes "Ride" ∷ codes "GravelRide" ∷ []

unfoldable pub importable_sport : Text → Bool
importable_sport sport_type =
    contains_func importable_sport_types (λ t. text_eq t (trim_space sport_type))

-- what every question and every count leaves behind
abbrev pub asked : Import → Import
asked s = record s { tick = suc s.tick }

unfoldable pub count : (Counts → Counts) → Step Unit
count f s = (ok tt, record s { counts = f s.counts })

abbrev pub change : Fault → Memory → Import → Result Unit × Import
change fine m s = (ok tt, record (asked s) { memory = m })
change before_change m s = (err failed, asked s)
change after_change m s = (err failed, record (asked s) { memory = m })

module _ (d : Deps) where
  unfoldable pub not_the_athletes_style : Text → Bool
  not_the_athletes_style title =
      let t = trim_space title in
      is_default_title t
      || matches d.machine_titles t
      || is_tool_title t
      || contains_func d.template_titles (λ candidate. text_eq (trim_space candidate) t)

  unfoldable pub store_named : ℕ → Step (Option NamedTitle)
  store_named id s = (read (d.store_fault s.tick) (named_row s.memory d.athlete_id id), asked s)

  abbrev pub naming_of : Listed → Naming
  naming_of a = record {
    athlete_id = d.athlete_id;
    activity_id = a.id;
    title = a.name;
    language = guess_language d.unicode a.name;
    source = Source.imported;
    at = a.start_date;
  }

  unfoldable pub store_mark_named : Listed → Step Unit
  store_mark_named a s = change (d.store_fault s.tick) (mark_named s.memory (naming_of a)) s

  -- an activity that the named log has, or has not
  abbrev pub record_unknown : Listed → Option NamedTitle → Step Unit
  record_unknown a (some row) = count (λ c. record c { already_known = suc c.already_known })
  record_unknown a none = store_mark_named a >> count (λ c. record c { imported = suc c.imported })

  unfoldable pub import_one : Listed → Step Unit
  unfolding importable_sport not_the_athletes_style store_named store_mark_named count
  import_one a =
      count (λ c. record c { seen = suc c.seen })
      >> (if not (importable_sport a.sport_type)
          then count (λ c. record c { not_a_ride = suc c.not_a_ride })
          else if not_the_athletes_style a.name
          then count (λ c. record c { skipped = suc c.skipped })
          else (store_named a.id >>= record_unknown a))

  unfoldable pub import_page : List Listed → Step Unit
  unfolding import_one
  import_page [] = pure tt
  import_page (a ∷ activities) = import_one a >> import_page activities

  unfoldable pub ask_page : ℕ → Step (List Listed)
  ask_page page s = (d.list_activities s.tick page, asked s)

  unfoldable pub ask_context : Step Unit
  ask_context s = ((if d.cancelled s.tick then err failed else ok tt), asked s)

  unfoldable pub ask_pause : ℕ → Step Unit
  ask_pause page s = ((if ltb 1 page && not (d.pause s.tick) then err failed else ok tt), asked s)

  -- what follows a page that was listed; `next` lists the pages behind it
  abbrev pub follow_page : List Listed → Step Bool → Step Bool
  follow_page activities next =
      count (λ c. record c { pages = suc c.pages })
      >> (if is_empty activities
          then pure true
          else (import_page activities
              >> (if ltb (length activities) d.per_page then pure true else next)))

  -- from a page on; true is the end of the listing, false an end of the fuel
  unfoldable pub pages_from : ℕ → ℕ → Step Bool
  unfolding import_page ask_page ask_context ask_pause
  pages_from zero page = pure false
  pages_from (suc fuel) page =
      let next = pages_from fuel (suc page) in
      ask_context >> ask_pause page >> (ask_page page >>= λ activities. follow_page activities next)

  abbrev pub no_counts : Counts
  no_counts = record {
    seen = 0;
    imported = 0;
    skipped = 0;
    not_a_ride = 0;
    already_known = 0;
    pages = 0;
  }

  unfoldable pub run : ℕ → Step Bool
  unfolding pages_from
  run fuel = if d.athlete_id == 0 then fail failed else pages_from fuel 1

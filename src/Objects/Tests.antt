-- ===== src/Objects/Tests.antt =====
-- Runs of the objects, and the theorems about them at concrete reports.
use doormat.Base.{ℕ, ◌≡◌, refl, true, if◌then◌else◌, List, [], ◌∷◌, codes}
use doormat.Objects.Remote.{
  Trigger, headers, body, finished, error, decoding, trigger_all, trigger, trigger_all_one_end,
  count, ends, make,
}
use doormat.Objects.ClientResponse.{ClientResponse, Callbacks, run, run-finished_error}
use doormat.Objects.ClientResponse

abbrev reports : List (Trigger ℕ)
reports = headers 7 ∷ body (codes "x") ∷ finished ∷ error decoding ∷ finished ∷ []

one_end : count (trigger_all reports make).posted ≡ 1
unfolding trigger
one_end = refl

trigger_all_one_end_example :
    count (trigger_all reports make).posted ≡ (if ends reports then 1 else 0)
trigger_all_one_end_example = trigger_all_one_end reports

abbrev all_set : Callbacks
all_set = record {
  on_headers = true;
  on_body = true;
  on_trailer = true;
  on_finished = true;
  on_response_continue = true;
  on_error = true;
}

abbrev response : ClientResponse ℕ
response =
    doormat.Objects.ClientResponse.trigger (headers 7) (doormat.Objects.ClientResponse.make all_set)

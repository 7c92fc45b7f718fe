-- ===== src/Tests/Histories.antt =====
-- A history of the exchange: two messages are published, and the first of them once more in vain.
use closed_loop_bench.Base.{true, none, List, [], ◌∷◌, ◌≡◌, refl}
use closed_loop_bench.Base.Outcome.{ok}
use closed_loop_bench.Json.{null, str, obj, field, end}
use closed_loop_bench.Files.{◌▹◌, Files}
use closed_loop_bench.Exchange.Platform.{Document}
use closed_loop_bench.Exchange.Message.{load_message}
use closed_loop_bench.Exchange.Writes.{publish_message}
use closed_loop_bench.Exchange.Writes.Texts.{HasTexts}
use closed_loop_bench.Exchange.Writes.Loads.{load_message-IsKept}
use closed_loop_bench.Exchange.Writes.Succeeds.{publish_message-returns}
use closed_loop_bench.Exchange.History.{Event, Step, History}
use closed_loop_bench.Exchange.History.Marks.{Step-IsKept}
use closed_loop_bench.Exchange.History.Distinct.{IsDistinct, History-IsDistinct}
use closed_loop_bench.Exchange.History.Register.{Register, view, messages, History-Register}
use closed_loop_bench.Tests.Sample.{platform, lawful, empty, turn, message, Blob, fit_at}
use closed_loop_bench.Tests.Exchange.{hello, hello_texts, run, polite}

abbrev other : Document platform
other = message "scene.result" "m2" "k2" null

abbrev other_texts : HasTexts platform other
other_texts = record {
  type = "scene.result";
  id = "m2";
  scope = "run";
  key = "k2";
  idempotency = obj (field "scope" (str "run") (field "key" (str "k2") end));
  type_at = refl;
  id_at = refl;
  idempotency_at = refl;
  scope_at = refl;
  key_at = refl;
}

-- The files after the first publication, after the second, and after the repeated one.
unfoldable one_message : Files Blob
unfolding run
one_message = (run hello empty).1

unfoldable two_messages : Files Blob
unfolding one_message
two_messages = (run other one_message).1

unfoldable still_two : Files Blob
unfolding two_messages
still_two = (publish_message platform (turn "c") (turn "d") hello none true two_messages).1

abbrev told : List (Event platform)
told =
    Event.publication "scene.result" "m2" other ∷ Event.publication "scene.result" "m1" hello ∷ []

first_step : Step platform empty (Event.publication "scene.result" "m1" hello ∷ []) one_message
unfolding one_message
first_step =
    Step.publish (turn "a") (turn "b") hello hello_texts empty
      (fit_at hello empty (turn "a") ([] ▹ "idempotency" ▹ "run" ▹ "k1") refl
        (record { no_dir = refl; no_file = refl; below = λ m. refl; respects = polite _ _ }))
      (record { no_dir = refl; no_file = refl; below = λ m. refl; respects = polite _ _ })

second_step :
    Step platform one_message (Event.publication "scene.result" "m2" other ∷ []) two_messages
unfolding two_messages
second_step =
    Step.publish (turn "a") (turn "b") other other_texts one_message
      (fit_at other one_message (turn "a") ([] ▹ "idempotency" ▹ "run" ▹ "k2") refl
        (record { no_dir = refl; no_file = refl; below = λ m. refl; respects = polite _ _ }))
      (record { no_dir = refl; no_file = refl; below = λ m. refl; respects = polite _ _ })

third_step : Step platform two_messages [] still_two
unfolding still_two
third_step =
    Step.publish (turn "c") (turn "d") hello hello_texts two_messages
      (fit_at hello two_messages (turn "c") ([] ▹ "idempotency" ▹ "run" ▹ "k1") refl
        (record { no_dir = refl; no_file = refl; below = λ m. refl; respects = polite _ _ }))
      (record { no_dir = refl; no_file = refl; below = λ m. refl; respects = polite _ _ })

history : History platform empty told still_two
history = History.next (History.next (History.next History.here first_step) second_step) third_step

History-IsDistinct_example : IsDistinct platform told
History-IsDistinct_example = History-IsDistinct platform history

History-Register_example :
    Register (view platform empty) (messages platform told) (view platform still_two)
History-Register_example = History-Register platform lawful history

load_message-IsKept_example :
    load_message platform two_messages (str "scene.result") (str "m1") none true ≡ ok hello
unfolding two_messages
load_message-IsKept_example =
    load_message-IsKept platform one_message two_messages (str "scene.result") (str "m1") none true
      hello (Step-IsKept platform second_step) refl

publish_message-returns_example :
    (publish_message platform (turn "a") (turn "b") hello none true empty).0
    ≡ ok ([] ▹ "messages" ▹ "scene.result" ▹ "m1")
unfolding run
publish_message-returns_example =
    publish_message-returns platform (turn "a") (turn "b") hello none true empty "scene.result" "m1"
      "run" "k1" (λ fs. refl) (λ fs. refl) refl refl refl
      (record {
        key_fit = record {
          no_dir = refl;
          no_file = refl;
          below = λ m. refl;
          respects = polite _ _;
        };
        key_free = record { no_dir = refl; no_file = refl };
        key_open = (refl, (refl, tt));
        message_fit = record {
          no_dir = refl;
          no_file = refl;
          below = λ m. refl;
          respects = polite _ _;
        };
        message_free = record { no_dir = refl; no_file = refl };
        message_open = (refl, (refl, tt));
      })

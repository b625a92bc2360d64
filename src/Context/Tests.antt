-- ===== src/Context/Tests.antt =====
-- A dispatcher's configuration of two groups and two topics.
use Prim.Native.String.{String}
use text.Mathlib.Text.{◌==◌ as str_eq}
use fy_s.Common.{◌≡◌, refl, true, false, Option, some, [], ◌∷◌, if◌then◌else◌}
use fy_s.Dispatcher.{Socket, DispatcherConnectionManager}
use fy_s.Context.{PropertyTree}
use fy_s.Context.Service.{override_dispatcher}
use fy_s.Context.Dispatcher.{
  Arguments, StartupDispatcherCtx, lines_from, parse_to_array, sub_topics_of, topics_of_groups,
  new_startup_dispatcher_ctx,
}
use fy_s.Scripting.Texts.{has_char}
use fy_s.Context.Configured.{IsComplete, IsConfigured, new_startup_dispatcher_ctx-IsConfigured}
use fy_s.Context.Topics.{Names, join}

abbrev texts : String → Option String
texts key =
    if str_eq key "dispatcher.topicGroups"
    then some "eu,us"
    else if str_eq key "dispatcher.topics"
    then some "chat,fight"
    else some "name"

abbrev configuration : PropertyTree
configuration = record {
  get_string = texts;
  get_ushort = λ key. some 4000;
  get_uint = λ key. some 1024;
  get_bool = λ key. some true;
}

abbrev socket : Socket
socket = record { connected = true; agrees = λ msg. true; incoming = []; sent = [] }

abbrev manager : DispatcherConnectionManager
manager = record {
  listener = socket;
  dispatcher = socket;
  sub_socket = socket;
  pub_socket = socket;
  closed = false;
}

abbrev arguments : Arguments
arguments = record {
  config_path = "fys.ini";
  config_specific_path = "NONE";
  name = "";
  change_port = 0;
  aware = true;
  verbose = false;
}

abbrev complete : IsComplete configuration
complete = record {
  max_msg_size = (1024, refl);
  backend_address = ("name", refl);
  backend_port = (4000, refl);
  frontend_address = ("name", refl);
  frontend_port = (4000, refl);
  binding_port = (4000, refl);
  dispatching_port = (4000, refl);
  cluster_aware = (true, refl);
  load_balancing = (true, refl);
  specific_config = ("name", refl);
  name = ("name", refl);
}

groups-Names : Names ("eu" ∷ "us" ∷ [])
unfolding has_char
groups-Names = let last : Names ("us" ∷ []) = (refl, refl) in (refl, last)

topics-Names : Names ("chat" ∷ "fight" ∷ [])
unfolding has_char
topics-Names = let last : Names ("fight" ∷ []) = (refl, refl) in (refl, last)

new_startup_dispatcher_ctx-IsConfigured_example :
    (ctx : StartupDispatcherCtx) × (new_startup_dispatcher_ctx
        (some arguments)
        (λ path. some configuration)
      ≡ some ctx)
    × IsConfigured ("eu" ∷ "us" ∷ []) ("chat" ∷ "fight" ∷ []) true manager ctx
unfolding join
new_startup_dispatcher_ctx-IsConfigured_example =
    new_startup_dispatcher_ctx-IsConfigured (λ path. some configuration) arguments configuration
      ("eu" ∷ "us" ∷ []) ("chat" ∷ "fight" ∷ []) manager complete refl refl refl refl groups-Names
      topics-Names refl

topics_of_the_groups :
    sub_topics_of (parse_to_array "eu,us") (parse_to_array "chat,fight")
    ≡ "eu_chat" ∷ "us_chat" ∷ "eu_fight" ∷ "us_fight" ∷ []
unfolding sub_topics_of topics_of_groups parse_to_array lines_from
topics_of_the_groups = refl

empty_lines : parse_to_array ",a,," ≡ "" ∷ "a" ∷ "" ∷ []
unfolding parse_to_array lines_from
empty_lines = refl

-- The host that is given on the command line is not taken.
given_host :
    (override_dispatcher
      (record {
        config_path = "fys.ini";
        config_specific_path = "ws.json";
        dispatcher_host = "example.org";
        subport = 0;
        dispatcher_port = 4005;
      })
      (record { address = "localhost"; subscriber_port = 1; port = 2 }))
    ≡ record { address = "localhost"; subscriber_port = 1; port = 4005 }
unfolding override_dispatcher
given_host = refl

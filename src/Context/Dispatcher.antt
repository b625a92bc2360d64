-- ===== src/Context/Dispatcher.antt =====
-- The context of a dispatcher: dispatcher/common/include/context/StartupDispatcherCtx.hh and
-- dispatcher/common/src/context/StartupDispatcherCtx.cpp, and what `setupConnectionManager` of
-- dispatcher/common/src/core/DispatcherConnectionManager.cpp takes from it.
use Prim.Native.String.{String, ◌++◌ as str_append}
use Prim.Native.Char.{code}
use text.Mathlib.Text.{◌==◌ as str_eq}
use fy_s.Common.{
  ℕ, Bool, true, false, not, Option, some, List, [], ◌∷◌, ◌++◌, map, ltb, ◌==◌, if◌then◌else◌,
}
use mathlib.Core.Option.{none}
use fy_s.Scripting.Texts.{to_string}
use fy_s.Dispatcher.{DispatcherConnectionManager}
use fy_s.Context.{PropertyTree, ◌>>=◌}

pub record ClusterProxy : Type 0 where
  pub frontend_port : ℕ
  pub backend_port : ℕ
  pub frontend_address : String
  pub backend_address : String

pub record StartupDispatcherCtx : Type 0 where
  pub version : String
  pub name : String
  pub binding_port : ℕ
  pub dispatching_port : ℕ
  pub max_msg_size : ℕ
  pub verbose : Bool
  pub cluster_proxy : ClusterProxy
  pub sub_topics : List String
  pub specific_config_path : String
  pub is_cluster_aware : Bool
  pub is_load_balancing : Bool

-- The members' initializers, and the version.
abbrev pub default_ctx : StartupDispatcherCtx
default_ctx = record {
  version = "1.0";
  name = "";
  binding_port = 0;
  dispatching_port = 0;
  max_msg_size = 1024;
  verbose = false;
  cluster_proxy = record {
    frontend_port = 0;
    backend_port = 0;
    frontend_address = "";
    backend_address = "";
  };
  sub_topics = [];
  specific_config_path = "";
  is_cluster_aware = false;
  is_load_balancing = true;
}

abbrev pub is_empty_text : String → Bool
is_empty_text String.[] = true
is_empty_text (String.◌∷◌ c s) = false

-- `getline` up to the next comma: the line, and the lines after it. At the end of the text with nothing
-- read there is no further line.
unfoldable pub lines_from : String → String × List String
lines_from String.[] = ("", [])
lines_from (String.◌∷◌ c s) =
    let rest = lines_from s in
    let later = if is_empty_text s then [] else rest.0 ∷ rest.1 in
    if code c == 44 then ("", later) else (String.◌∷◌ c rest.0, rest.1)

unfoldable pub parse_to_array : String → List String
unfolding lines_from
parse_to_array s = let read = lines_from s in if is_empty_text s then [] else read.0 ∷ read.1

-- The two loops over the topics and the groups.
unfoldable pub topics_of_groups : List String → List String → List String
topics_of_groups groups [] = []
topics_of_groups groups (topic ∷ topics) =
    map (λ group. str_append group (str_append "_" topic)) groups ++ topics_of_groups groups topics

unfoldable pub sub_topics_of : List String → List String → List String
unfolding topics_of_groups
sub_topics_of [] topics = topics
sub_topics_of (group ∷ groups) topics = topics_of_groups (group ∷ groups) topics

unfoldable pub initialize_from_ini :
    PropertyTree → StartupDispatcherCtx → Option StartupDispatcherCtx
unfolding parse_to_array sub_topics_of
initialize_from_ini pt ctx = do
  max_msg_size ← pt.get_uint "dispatcher.maxMsgSize"
  backend_address ← pt.get_string "proxy_backend.address"
  backend_port ← pt.get_ushort "proxy_backend.port"
  frontend_address ← pt.get_string "proxy_frontend.address"
  frontend_port ← pt.get_ushort "proxy_frontend.port"
  binding_port ← pt.get_ushort "dispatcher.bindingPort"
  dispatching_port ← pt.get_ushort "dispatcher.dispatcherPort"
  is_cluster_aware ← pt.get_bool "dispatcher.isClusterAware"
  is_load_balancing ← pt.get_bool "dispatcher.isLoadBalancing"
  specific_config_path ← pt.get_string "dispatcher.specific_config"
  name ← pt.get_string "dispatcher.name"
  topic_groups ← pt.get_string "dispatcher.topicGroups"
  topics ← pt.get_string "dispatcher.topics"
  some (record ctx {
    max_msg_size = max_msg_size;
    cluster_proxy = record {
      frontend_port = frontend_port;
      backend_port = backend_port;
      frontend_address = frontend_address;
      backend_address = backend_address;
    };
    binding_port = binding_port;
    dispatching_port = dispatching_port;
    is_cluster_aware = is_cluster_aware;
    is_load_balancing = is_load_balancing;
    specific_config_path = specific_config_path;
    name = name;
    sub_topics = sub_topics_of (parse_to_array topic_groups) (parse_to_array topics);
  })

-- The values of the command line. The option of the load balance is not added to it, so its value is
-- the default, `true`.
pub record Arguments : Type 0 where
  pub config_path : String
  pub config_specific_path : String
  pub name : String
  pub change_port : ℕ
  pub aware : Bool
  pub verbose : Bool

abbrev pub load_balance : Bool
load_balance = true

unfoldable pub override_ctx : Arguments → StartupDispatcherCtx → StartupDispatcherCtx
override_ctx args ctx = record ctx {
  specific_config_path =
      if not (str_eq "NONE" args.config_specific_path)
      then args.config_specific_path
      else ctx.specific_config_path;
  binding_port = if ltb 0 args.change_port then args.change_port else ctx.binding_port;
  name = if not (is_empty_text args.name) then args.name else ctx.name;
  is_cluster_aware = if not args.aware then false else ctx.is_cluster_aware;
  is_load_balancing = if not load_balance then false else ctx.is_load_balancing;
  verbose = args.verbose;
}

unfoldable pub configured : (String → Option PropertyTree) → String → Option StartupDispatcherCtx
unfolding initialize_from_ini
configured read_ini config_path = elim (str_eq "NONE" config_path) [
  | true ↦ some default_ctx
  | false ↦ elim (read_ini config_path) [
    | none ↦ none
    | some pt ↦ initialize_from_ini pt default_ctx
  ]
]

-- The constructor; `none` is an exception, which its handler logs and throws again, so that the
-- `noexcept` ends the program.
unfoldable pub new_startup_dispatcher_ctx :
    Option Arguments → (String → Option PropertyTree) → Option StartupDispatcherCtx
unfolding configured override_ctx
new_startup_dispatcher_ctx parsed read_ini = do
  args ← parsed
  ctx ← configured read_ini args.config_path
  some (override_ctx args ctx)

unfoldable pub get_listener_binding_string : StartupDispatcherCtx → String
unfolding to_string
get_listener_binding_string ctx = str_append "tcp://*:" (to_string ctx.binding_port)

unfoldable pub get_dispatcher_binding_string : StartupDispatcherCtx → String
unfolding to_string
get_dispatcher_binding_string ctx = str_append "tcp://*:" (to_string ctx.dispatching_port)

unfoldable pub get_frontend_cluster_proxy_connection_string : StartupDispatcherCtx → String
unfolding to_string
get_frontend_cluster_proxy_connection_string ctx = str_append "tcp://" (
    str_append ctx.cluster_proxy.frontend_address
      (str_append ":" (to_string ctx.cluster_proxy.frontend_port)))

unfoldable pub get_backend_cluster_proxy_connection_string : StartupDispatcherCtx → String
unfolding to_string
get_backend_cluster_proxy_connection_string ctx = str_append "tcp://" (
    str_append ctx.cluster_proxy.backend_address
      (str_append ":" (to_string ctx.cluster_proxy.backend_port)))

-- The endpoints of the sockets, and the topics of the subscriber.
pub record Endpoints : Type 0 where
  pub pub_socket : Option String
  pub sub_socket : Option String
  pub subscriptions : List String
  pub max_msg_size : ℕ
  pub dispatcher : String
  pub listener : String

unfoldable pub setup_connection_manager :
    StartupDispatcherCtx → DispatcherConnectionManager → DispatcherConnectionManager × Endpoints
unfolding get_frontend_cluster_proxy_connection_string get_backend_cluster_proxy_connection_string
    get_dispatcher_binding_string get_listener_binding_string
setup_connection_manager ctx m =
    let frontend = get_frontend_cluster_proxy_connection_string ctx in
    let backend = get_backend_cluster_proxy_connection_string ctx in
    let aware = ctx.is_cluster_aware in
    let cluster_closed : DispatcherConnectionManager = record m {
      pub_socket = record (m.pub_socket) { connected = false };
      sub_socket = record (m.sub_socket) { connected = false };
      closed = true;
    } in
    (
      (if aware then m else cluster_closed),
      record {
        pub_socket = if aware then some frontend else none;
        sub_socket = if aware then some backend else none;
        subscriptions = if aware then ctx.sub_topics else [];
        max_msg_size = ctx.max_msg_size;
        dispatcher = get_dispatcher_binding_string ctx;
        listener = get_listener_binding_string ctx;
      },
    )

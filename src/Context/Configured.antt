-- ===== src/Context/Configured.antt =====
-- A dispatcher that is started with a configuration file:
-- dispatcher/common/src/context/StartupDispatcherCtx.cpp and
-- dispatcher/common/src/core/DispatcherConnectionManager.cpp.
use Prim.Native.String.{String}
use text.Mathlib.Text.{◌==◌ as str_eq}
use fy_s.Common.{
  ℕ, ◌≡◌, refl, sym, subst, ap, ◌∙◌, Bool, true, false, not, ◌&&◌, Option, some, List, [],
  if◌then◌else◌,
}
use fy_s.Dispatcher.{DispatcherConnectionManager}
use fy_s.Context.{PropertyTree}
use fy_s.Context.Dispatcher.{
  StartupDispatcherCtx, Arguments, parse_to_array, sub_topics_of, initialize_from_ini, configured,
  default_ctx, override_ctx, new_startup_dispatcher_ctx, setup_connection_manager,
}
use fy_s.Context.Topics.{join, Names, parse_to_array-join, Subscribed, sub_topics_of-Subscribed}

-- The entries of a configuration but for the topics and their groups.
pub record IsComplete (pt : PropertyTree) : Type 0 where
  pub max_msg_size : (n : ℕ) × (pt.get_uint "dispatcher.maxMsgSize" ≡ some n)
  pub backend_address : (s : String) × (pt.get_string "proxy_backend.address" ≡ some s)
  pub backend_port : (n : ℕ) × (pt.get_ushort "proxy_backend.port" ≡ some n)
  pub frontend_address : (s : String) × (pt.get_string "proxy_frontend.address" ≡ some s)
  pub frontend_port : (n : ℕ) × (pt.get_ushort "proxy_frontend.port" ≡ some n)
  pub binding_port : (n : ℕ) × (pt.get_ushort "dispatcher.bindingPort" ≡ some n)
  pub dispatching_port : (n : ℕ) × (pt.get_ushort "dispatcher.dispatcherPort" ≡ some n)
  pub cluster_aware : (b : Bool) × (pt.get_bool "dispatcher.isClusterAware" ≡ some b)
  pub load_balancing : (b : Bool) × (pt.get_bool "dispatcher.isLoadBalancing" ≡ some b)
  pub specific_config : (s : String) × (pt.get_string "dispatcher.specific_config" ≡ some s)
  pub name : (s : String) × (pt.get_string "dispatcher.name" ≡ some s)

initialize_from_ini_lem :
    (pt : PropertyTree) (groups topics : String) (ctx : StartupDispatcherCtx) (c : IsComplete pt)
    → pt.get_string "dispatcher.topicGroups" ≡ some groups
    → pt.get_string "dispatcher.topics" ≡ some topics
    → (ctx' : StartupDispatcherCtx) × (initialize_from_ini pt ctx ≡ some ctx')
      × (ctx'.sub_topics ≡ sub_topics_of (parse_to_array groups) (parse_to_array topics))
      × (ctx'.is_cluster_aware ≡ c.cluster_aware.0)
unfolding initialize_from_ini
initialize_from_ini_lem pt groups topics ctx c e e' = (
  record ctx {
    max_msg_size = c.max_msg_size.0;
    cluster_proxy = record {
      frontend_port = c.frontend_port.0;
      backend_port = c.backend_port.0;
      frontend_address = c.frontend_address.0;
      backend_address = c.backend_address.0;
    };
    binding_port = c.binding_port.0;
    dispatching_port = c.dispatching_port.0;
    is_cluster_aware = c.cluster_aware.0;
    is_load_balancing = c.load_balancing.0;
    specific_config_path = c.specific_config.0;
    name = c.name.0;
    sub_topics = sub_topics_of (parse_to_array groups) (parse_to_array topics);
  },
  simp
      (
        c.max_msg_size.1, c.backend_address.1, c.backend_port.1, c.frontend_address.1,
        c.frontend_port.1, c.binding_port.1, c.dispatching_port.1, c.cluster_aware.1,
        c.load_balancing.1, c.specific_config.1, c.name.1, e, e',
      )
      refl,
  refl,
  refl,
)

-- What a dispatcher started with a configuration is set up with.
pub record IsConfigured (groups topics : List String) (aware : Bool)
    (m : DispatcherConnectionManager) (ctx : StartupDispatcherCtx) : Type 0 where
  subscribed : Subscribed groups topics ctx.sub_topics
  subscriptions :
      (setup_connection_manager ctx m).1.subscriptions ≡ (if aware then ctx.sub_topics else [])
  closed : (setup_connection_manager ctx m).0.closed ≡ not aware
  pub_socket :
      (setup_connection_manager ctx m).0.pub_socket.connected
      ≡ (if aware then m.pub_socket.connected else false)
  sub_socket :
      (setup_connection_manager ctx m).0.sub_socket.connected
      ≡ (if aware then m.sub_socket.connected else false)

aware_split : (a b : Bool) → (if not a then false else b) ≡ (a && b)
aware_split true b = refl
aware_split false b = refl

setup-IsConfigured :
    (groups topics : List String) (aware : Bool) (m : DispatcherConnectionManager)
    (ctx : StartupDispatcherCtx)
    → m.closed ≡ false
    → ctx.is_cluster_aware ≡ aware
    → ctx.sub_topics ≡ sub_topics_of groups topics
    → IsConfigured groups topics aware m ctx
unfolding setup_connection_manager
setup-IsConfigured groups topics aware m ctx open_cluster is_aware subs = record {
  subscribed = subst (Subscribed groups topics) (sym subs) (sub_topics_of-Subscribed groups topics);
  subscriptions = ap (λ (b : Bool). if b then ctx.sub_topics else []) is_aware;
  closed = go ctx.is_cluster_aware ∙ ap not is_aware;
  pub_socket =
      on_pub ctx.is_cluster_aware
      ∙ ap (λ (b : Bool). if b then m.pub_socket.connected else false) is_aware;
  sub_socket =
      on_sub ctx.is_cluster_aware
      ∙ ap (λ (b : Bool). if b then m.sub_socket.connected else false) is_aware;
}
  where
    go :
        (b : Bool)
        → (setup_connection_manager (record ctx { is_cluster_aware = b }) m).0.closed ≡ not b
    go true = open_cluster
    go false = refl

    on_pub :
        (b : Bool)
        → (setup_connection_manager (record ctx { is_cluster_aware = b }) m).0.pub_socket.connected
          ≡ (if b then m.pub_socket.connected else false)
    on_pub true = refl
    on_pub false = refl

    on_sub :
        (b : Bool)
        → (setup_connection_manager (record ctx { is_cluster_aware = b }) m).0.sub_socket.connected
          ≡ (if b then m.sub_socket.connected else false)
    on_sub true = refl
    on_sub false = refl

-- A configuration file that names its topics and groups with commas between them, and has all other
-- entries, starts the dispatcher: a topic of each group is subscribed to, in the order of the topics
-- and then the groups, or each topic where there are no groups, if both the configuration and the
-- command line make it aware of the cluster; otherwise both sockets of the cluster are closed, it is
-- marked as closed and nothing is subscribed to.
pub new_startup_dispatcher_ctx-IsConfigured :
    (read_ini : String → Option PropertyTree) (args : Arguments) (pt : PropertyTree)
    (groups topics : List String) (m : DispatcherConnectionManager) (c : IsComplete pt)
    → str_eq "NONE" args.config_path ≡ false
    → read_ini args.config_path ≡ some pt
    → pt.get_string "dispatcher.topicGroups" ≡ some (join groups)
    → pt.get_string "dispatcher.topics" ≡ some (join topics)
    → Names groups
    → Names topics
    → m.closed ≡ false
    → (ctx : StartupDispatcherCtx) × (new_startup_dispatcher_ctx (some args) read_ini ≡ some ctx)
      × IsConfigured groups topics (args.aware && c.cluster_aware.0) m ctx
unfolding new_startup_dispatcher_ctx configured override_ctx
new_startup_dispatcher_ctx-IsConfigured read_ini args pt groups topics m c given read e e' names
      names' open_cluster =
    let (ctx, done, subs, aware) =
      initialize_from_ini_lem pt (join groups) (join topics) default_ctx c e e' in
    (
      override_ctx args ctx,
      rw (given, configured, read, configured, done) refl,
      setup-IsConfigured groups topics (args.aware && c.cluster_aware.0) m (override_ctx args ctx)
          open_cluster
          (ap (λ (b : Bool). if not args.aware then false else b) aware
            ∙ aware_split args.aware c.cluster_aware.0)
          (subs
            ∙ ap (λ xs. sub_topics_of xs (parse_to_array (join topics)))
                (parse_to_array-join groups names)
            ∙ ap (sub_topics_of groups) (parse_to_array-join topics names')),
    )

-- ===== src/Context/Service.antt =====
-- The context of a service: services/common/include/ServiceContextBase.hh and
-- services/common/src/ServiceContextBase.cpp.
use Prim.Native.String.{String, ◌++◌ as str_append}
use text.Mathlib.Text.{◌==◌ as str_eq}
use fy_s.Common.{ℕ, Option, some, ltb, if◌then◌else◌}
use fy_s.Scripting.Texts.{to_string}
use fy_s.Context.{PropertyTree, ◌>>=◌}

pub record DispatcherData : Type 0 where
  pub address : String
  pub subscriber_port : ℕ
  pub port : ℕ

pub record ServiceContextBase : Type 0 where
  pub version : String
  pub name : String
  pub config_file : String
  pub hostname : String
  pub port : ℕ
  pub dispatcher_data : DispatcherData

-- What `initializeFromIni` reads.
unfoldable pub initialize_from_ini : PropertyTree → String → String → Option ServiceContextBase
initialize_from_ini pt version config_file = do
  name ← pt.get_string "service.name"
  hostname ← pt.get_string "service.hostname"
  port ← pt.get_ushort "service.port"
  subscriber_port ← pt.get_ushort "dispatcher.subport"
  dispatcher_port ← pt.get_ushort "dispatcher.port"
  address ← pt.get_string "dispatcher.address"
  some (record {
    version = version;
    name = name;
    config_file = config_file;
    hostname = hostname;
    port = port;
    dispatcher_data = record {
      address = address;
      subscriber_port = subscriber_port;
      port = dispatcher_port;
    };
  })

-- The values of the command line.
pub record Arguments : Type 0 where
  pub config_path : String
  pub config_specific_path : String
  pub dispatcher_host : String
  pub subport : ℕ
  pub dispatcher_port : ℕ

-- What the command line changes of the data of the dispatcher.
unfoldable pub override_dispatcher : Arguments → DispatcherData → DispatcherData
override_dispatcher args d = record {
  port = if ltb 0 args.dispatcher_port then args.dispatcher_port else d.port;
  address = if str_eq "NONE" args.dispatcher_host then args.dispatcher_host else d.address;
  subscriber_port = if ltb 0 args.subport then args.subport else d.subscriber_port;
}

-- The constructor; `none` is an exception, of `parse`, `read_ini` or `get`, which the handler of its
-- function body logs and throws again.
unfoldable pub new_service_context_base :
    Option Arguments → (String → Option PropertyTree) → Option ServiceContextBase
unfolding initialize_from_ini override_dispatcher
new_service_context_base parsed read_ini = do
  args ← parsed
  pt ← read_ini args.config_path
  ctx ← initialize_from_ini pt "0.0.1" args.config_specific_path
  some (record ctx { dispatcher_data = override_dispatcher args ctx.dispatcher_data })

unfoldable pub get_connection_string : ServiceContextBase → String
unfolding to_string
get_connection_string ctx =
    str_append "tcp://" (str_append ctx.hostname (str_append ":" (to_string ctx.port)))

-- ===== src/Application.antt =====
-- headers/Application.hpp and sources/Application.cpp: the router and the server of a program, with
-- the state of the logger, which is static.
pub mod Sharing
use fion.Prelude.{ℕ, Bool, Option, List, [], map}
use fion.Prelude.Results.{Exception}
use fion.Text.{Bytes}
use fion.Routing.{Handler, Middleware, Route, Router, add_route, add_group, add_resource}
use fion.Logging.{Logger, first_logger, init, shutdown}
use fion.Network.Pool.Events.{Pool}
use fion.Network.PoolManager.{PoolManager}
use fion.Network.Server.{Server, new_server, StartAnswers, start_server, stop_server}

pub record Application : Type 0 where
  pub router : Router
  pub server : Server
  pub logger : Logger

abbrev pub no_routes : Router
no_routes = record { routes = [] }

abbrev pub new_application : Application
new_application = record {
  router = no_routes;
  server = new_server no_routes;
  logger = first_logger;
}

-- A change of the router is one for the server and for its pools too, which hold a pointer to it.
abbrev pub share_router : Router → Server → Server
share_router router s = record s {
  router = router;
  manager = record s.manager {
    pools = map (λ (p : Pool). record p { router = router }) s.manager.pools;
  };
}

unfoldable pub set_router : Application → Router → Application
set_router app router = record app { router = router; server = share_router router app.server }

-- `addRoute`
unfoldable pub app_add_route :
    Application → Bytes → Bytes → Option Handler → List Middleware → Bool → List Bytes → Application
app_add_route app pattern method handler middleware is_regex param_keys =
    let route : Route = record {
      path_pattern = pattern;
      method = method;
      handler = handler;
      middleware = middleware;
      is_regex = is_regex;
      param_keys = param_keys;
    } in
    set_router app (add_route app.router route)

-- `addGroup`
unfoldable pub app_add_group : Application → Bytes → List Route → List Middleware → Application
app_add_group app prefix group_routes group_middleware =
    set_router app (add_group app.router prefix group_routes group_middleware)

-- `addResource`
unfoldable pub app_add_resource :
    Application → Bytes → Option Handler → List Middleware → Application
app_add_resource app resource handler middleware =
    set_router app (add_resource app.router resource handler middleware)

-- `run` up to the loop that waits for the end of the server.
unfoldable pub app_run : Application → Bytes → StartAnswers → ℕ → Application × Option Exception
app_run app host a num_threads =
    let (server, thrown) = start_server app.server host a num_threads in
    (record app { server = server; logger = init app.logger }, thrown)

-- `stop`, which the destructor calls too; the server is never null.
unfoldable pub app_stop : Application → Application
app_stop app = record app { server = stop_server app.server; logger = shutdown app.logger }

-- A call of a method of the application.
pub data AppCall : Type 0 where
  route_call : Bytes → Bytes → Option Handler → List Middleware → Bool → List Bytes → AppCall
  group_call : Bytes → List Route → List Middleware → AppCall
  resource_call : Bytes → Option Handler → List Middleware → AppCall
  run_call : Bytes → StartAnswers → ℕ → AppCall
  stop_call : AppCall

abbrev pub app_call : Application → AppCall → Application
app_call app (route_call pattern method handler middleware is_regex param_keys) =
    app_add_route app pattern method handler middleware is_regex param_keys
app_call app (group_call prefix group_routes group_middleware) =
    app_add_group app prefix group_routes group_middleware
app_call app (resource_call resource handler middleware) =
    app_add_resource app resource handler middleware
app_call app (run_call host a num_threads) = (app_run app host a num_threads).0
app_call app stop_call = app_stop app

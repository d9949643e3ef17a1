-- ===== src/Application/Sharing.antt =====
-- The pools of an application answer with its router.
use fion.Prelude.{◌≡◌, All}
use fion.Routing.{Router}
use fion.Network.Pool.Events.{Pool}
use fion.Network.PoolManager.{PoolManager}
use fion.Network.Server.{Server}
use fion.Application.{Application}

abbrev pub HasRouter : Router → Pool → Type 0
HasRouter router p = p.router ≡ router

-- The server has the router of the application, and so has every pool.
abbrev pub SharesRouter : Router → Server → Type 0
SharesRouter router s = (s.router ≡ router) × All (HasRouter router) s.manager.pools

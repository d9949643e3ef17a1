-- ===== src/Tests/Connections.antt =====
-- The theorems of the connections at concrete clients and pools.
use fion.Prelude.{
  List, ℕ, ◌+◌, ◌%◌, true, false, none, some, [], ◌∷◌, ◌++◌, ◌≡◌, refl, if◌then◌else◌, length,
  arith, leb, ◌==◌, get_elem?,
}
use fion.Prelude.Int.{pos}
use fion.Text.{Bytes, codes, find_byte, find_text, starts_with}
use fion.Text.Find.{LacksText}
use fion.Text.Crlf.{crlf_crlf, IsLine, head_text}
use fion.Prelude.IntLaws.{eq_ℤ_iff}
use fion.Http.Version.{Version}
use fion.Http.Method.{Method}
use fion.Network.Client.{Client, is_text_ready, is_request_ready, content_length_name}
use fion.Network.Client.Ready.{is_request_ready-length}
use fion.Network.Client.LengthLine.{request_with_length}
use fion.Network.ConnectionPool.{find_client}
use fion.Network.Pool.Events.{Pool, is_watched, pool_add_client, handle_client_event}
use fion.Network.Pool.Watched.{InSync}
use fion.Network.Pool.Settled.{Settled, client_at, handle_client_event-Settled}
use fion.Network.Pool.Answer.{with_bytes}
use fion.Network.EventLoop.{polled, LoopTurn}
use fion.Network.EventLoop.Batches.{Arrival}
use fion.Network.PoolManager.{PoolManager, distribute_client}
use fion.Network.PoolManager.Turns.{distribute_client_lem}
use fion.Tests.Sample.{literal_match, sample_client, idle_pool, busy_pool}

-- Readiness

abbrev pub start : Bytes
start = codes "POST / HTTP/1.1"

abbrev filled : Bytes → Client
filled data_read = record (sample_client (pos 5)) { request_buffer = record { bytes = data_read } }

pub start-IsLine : IsLine start
unfolding find_byte
start-IsLine = ((λ e. cc e), refl)

pub no_length_before :
    LacksText content_length_name (head_text (start ∷ []) ++ codes "Content-Length")
unfolding find_text starts_with content_length_name
no_length_before = refl

is_request_ready-length_example :
    is_request_ready (filled (request_with_length (start ∷ []) 5 [] (codes "hell")))
    ≡ leb 5 (length (codes "hell"))
is_request_ready-length_example =
    is_request_ready-length (filled (request_with_length (start ∷ []) 5 [] (codes "hell"))) start []
      [] 5 (codes "hell") refl start-IsLine tt tt (omega arith) no_length_before

abbrev short_request : Bytes
short_request = codes "GET / HTTP/1.1\r\n\r\n"

blank_line : find_text crlf_crlf short_request ≡ some 14
unfolding find_text starts_with
blank_line = refl

no_length : LacksText content_length_name short_request
unfolding find_text starts_with content_length_name
no_length = refl

-- Answers

-- Pools

pub idle_InSync : InSync idle_pool
unfolding is_watched find_client
idle_InSync = record { unique = tt; once = tt; agree = λ fd. refl; owned = λ fd c h. absurd (cc h) }

pub busy_InSync : InSync busy_pool
unfolding is_watched find_client
busy_InSync = record {
  unique = (refl, tt);
  once = (refl, tt);
  agree = λ fd. ground arith;
  owned = λ fd c h. ground (arith, eq_ℤ_iff fd (pos 5), h);
}

pub five_found : client_at (pos 5) busy_pool ≡ some (sample_client (pos 5))
unfolding find_client
five_found = refl

pub no_five : client_at (pos 5) idle_pool ≡ none
unfolding find_client
no_five = refl

handle_client_event-Settled_example :
    Settled busy_pool (pos 5) (handle_client_event literal_match busy_pool (pos 5) 1 none (pos 0))
handle_client_event-Settled_example =
    handle_client_event-Settled literal_match (pos 5) busy_pool 1 none (pos 0) busy_InSync

abbrev later_bytes : Bytes
later_bytes = codes "ET / HTTP/1.1\r\n\r\n"

incomplete : is_request_ready (with_bytes (sample_client (pos 5)) (b'G' ∷ codes "ET")) ≡ false
unfolding is_request_ready is_text_ready find_text starts_with
incomplete = refl

abbrev two_pools : PoolManager
two_pools = record { pools = idle_pool ∷ (busy_pool ∷ []); next_pool_index = 1 }

distribute_client_lem_example :
    (p : Pool) × (get_elem? two_pools.pools two_pools.next_pool_index ≡ some p)
    × ((distribute_client two_pools (pos 6) true).1 ≡ (pool_add_client p (pos 6) true).1)
    × ((j : ℕ)
        → get_elem? (distribute_client two_pools (pos 6) true).0.pools j ≡ (
            if j == two_pools.next_pool_index
            then some (pool_add_client p (pos 6) true).0
            else get_elem? two_pools.pools j))
    × ((distribute_client two_pools (pos 6) true).0.next_pool_index
        ≡ (two_pools.next_pool_index + 1) % length two_pools.pools)
distribute_client_lem_example = distribute_client_lem two_pools (pos 6) true (omega arith)

abbrev pub arrival : Arrival
arrival = record {
  fd = pos 5;
  events = 1;
  received = some (b'G' ∷ later_bytes);
  send_result = pos 90;
}

abbrev one_batch : List (LoopTurn Arrival)
one_batch = record { goes_on = true; poll = polled (arrival ∷ (arrival ∷ [])) } ∷ []

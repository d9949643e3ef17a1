-- ===== src/Network/Pool/Isolation/Changes.antt =====
-- Changes of a pool that concern one descriptor.
use fion.Prelude.{
  Bool, true, false, Option, none, some, List, [], ◌∷◌, ◌++◌, ◌≡◌, refl, sym, ◌∙◌, arith,
  if◌then◌else◌, append_assoc, subst,
}
use fion.Prelude.Int.{ℤ, eq_ℤ}
use fion.Prelude.IntLaws.{eq_ℤ_iff}
use fion.Text.{Bytes}
use fion.Network.Client.{Client}
use fion.Network.ConnectionPool.{set_client}
use fion.Network.ConnectionPool.Laws.{find_client-put_client, find_client-drop_client}
use fion.Network.Pool.Events.{Pool, Outcome, close_connection, update_client}
use fion.Network.Pool.Watched.{InSync, close_connection_lem}
use fion.Network.Pool.Settled.{client_at}
use fion.Network.Pool.Isolation.{sent_to}

-- A change of a pool that is one for a descriptor alone.
pub record Acts (p : Pool) (fd : ℤ) (r : Option Client × List Bytes) (q : Pool) : Type 0 where
  pub same_router : q.router ≡ p.router
  pub client : (j : ℤ) → client_at j q ≡ (if eq_ℤ j fd then r.0 else client_at j p)
  pub log :
      (j : ℤ) → sent_to j q.sent ≡ (if eq_ℤ j fd then r.1 ++ sent_to j p.sent else sent_to j p.sent)

pub branch-Acts :
    {p : Pool} {fd : ℤ} (b : Bool) (x y : Option Client × List Bytes) (u v : Outcome)
    → Acts p fd x u.0
    → Acts p fd y v.0
    → Acts p fd (if b then x else y) (if b then u else v).0
branch-Acts true x y u v h k = h
branch-Acts false x y u v h k = k

pub trans-Acts :
    {p q r : Pool} {fd : ℤ} (x y : Option Client × List Bytes)
    → Acts p fd x q
    → Acts q fd y r
    → Acts p fd (y.0, y.1 ++ x.1) r
trans-Acts {p} {q} {r} {fd} x y first second = record {
  same_router = second.same_router ∙ first.same_router;
  client = λ j. ground (arith, second.client j, first.client j);
  log = λ j. ground (arith, second.log j, first.log j, append_assoc y.1 x.1 (sent_to j p.sent));
}

pub kept-Acts : (p : Pool) (fd : ℤ) (o : Option Client) → client_at fd p ≡ o → Acts p fd (o, []) p
kept-Acts p fd o found = record {
  same_router = refl;
  client = λ j. ground (arith, eq_ℤ_iff j fd, found);
  log = λ j. ground arith;
}

pub closed-Acts :
    (q : Pool) (fd : ℤ) (c : Client)
    → InSync q
    → client_at fd q ≡ some c
    → Acts q fd (none, []) (close_connection q fd).0
closed-Acts q fd c s found =
    subst (λ (o : Outcome). Acts q fd (none, []) o.0) (sym (close_connection_lem q fd c s found))
      (record {
        same_router = refl;
        client = λ j. ground (arith, find_client-drop_client j fd q.connections.clients s.unique);
        log = λ j. ground arith;
      })

pub quiet-Acts : (p : Pool) (fd : ℤ) (c : Client) → Acts p fd (some c, []) (update_client p fd c [])
unfolding set_client
quiet-Acts p fd c = record {
  same_router = refl;
  client = λ j. find_client-put_client j fd c p.connections.clients;
  log = λ j. ground arith;
}

pub sent-Acts :
    (p : Pool) (fd : ℤ) (c : Client) (text : Bytes)
    → Acts p fd (some c, text ∷ []) (update_client p fd c ((fd, text) ∷ []))
unfolding set_client sent_to
sent-Acts p fd c text = record {
  same_router = refl;
  client = λ j. find_client-put_client j fd c p.connections.clients;
  log = λ j. ground arith;
}

-- ===== src/RpcClient.antt =====
-- src/private/rpcclient.tpp and src/private/rpcclient.hpp: one JSON-RPC client for each thread, made when the
-- thread first asks. A thread is a number; the clients of libjson-rpc-cpp are parameters.
use democrit.Base.{
  ℕ, ◌==◌, ◌≡◌, refl, sym, [], ap, ◌∙◌, inl, inr, Bool, Bool-cases, none, some, Option-cases, Text,
  Dict, lookup, insert, nat_eq, lookup-insert, if◌then◌else◌,
}

pub record RpcClient (H T : Type 0) : Type 0 where
  pub endpoint : Text
  pub legacy : Bool
  pub http_clients : Dict ℕ H
  pub rpc_clients : Dict ℕ T

module _ {H T : Type 0} (new_http : Text → H) (new_rpc : H → Bool → T) where
  abbrev pub new_client : Text → Bool → RpcClient H T
  new_client endpoint legacy = record {
    endpoint = endpoint;
    legacy = legacy;
    http_clients = [];
    rpc_clients = [];
  }

  -- `emplace` keeps an entry that is there; the result is the entry.
  unfoldable pub emplaced : {V : Type 0} → ℕ → V → Dict ℕ V → V × Dict ℕ V
  emplaced id v d = elim (lookup id d) [ none ↦ (v, insert id v d) | some old ↦ (old, d) ]

  -- `operator*`, of the thread.
  unfoldable pub client_of : ℕ → RpcClient H T → T × RpcClient H T
  unfolding emplaced
  client_of id c = elim (lookup id c.rpc_clients) [
    | some rpc ↦ (rpc, c)
    | none ↦
        let (http, https) = emplaced id (new_http c.endpoint) c.http_clients in
        let (rpc, rpcs) = emplaced id (new_rpc http c.legacy) c.rpc_clients in
        (rpc, record c { http_clients = https; rpc_clients = rpcs })
  ]

  emplaced-lookup :
      {V : Type 0} (id other : ℕ) (v : V) (d : Dict ℕ V)
      → lookup id d ≡ none
      → lookup other (emplaced id v d).1
        ≡ (if id == other then some (emplaced id v d).0 else lookup other d)
  unfolding emplaced
  emplaced-lookup id other v d new = rw (emplaced, new) (lookup-insert id other v d)

  -- After a thread has asked, its client is there, and those of the other threads are as before.
  client_of-lookup :
      (id other : ℕ) (c : RpcClient H T)
      → lookup other (client_of id c).1.rpc_clients
        ≡ (if id == other then some (client_of id c).0 else lookup other c.rpc_clients)
  unfolding client_of
  client_of-lookup id other c = elim (Option-cases (lookup id c.rpc_clients)) [
    | inl new ↦ rw (client_of, new) (emplaced-lookup id other _ c.rpc_clients new)
    | inr (rpc, known) ↦ elim (Bool-cases (id == other)) [
      | inl same ↦
          rw (client_of, known, same)
            (ap (λ i. lookup i c.rpc_clients) (sym ((nat_eq.beq_iff id other).0 same)) ∙ known)
      | inr different ↦ rw (client_of, known, different) refl
    ]
  ]

  client_of-known :
      (id : ℕ) (c : RpcClient H T) (rpc : T)
      → lookup id c.rpc_clients ≡ some rpc
      → client_of id c ≡ (rpc, c)
  unfolding client_of
  client_of-known id c rpc known = rw (client_of, known) refl

  -- A thread that asks again gets the same client.
  client_of-again : (id : ℕ) (c : RpcClient H T) → client_of id (client_of id c).1 ≡ client_of id c
  client_of-again id c =
      client_of-known id (client_of id c).1 (client_of id c).0
        (client_of-lookup id id c ∙ (rw ((nat_eq.beq_iff id id).1 refl) refl))

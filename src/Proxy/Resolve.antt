-- ===== src/Proxy/Resolve.antt =====
-- What a resolved binding and a passed test of `execute_tool` say of the tables and the token.
use ai_iam_platform.Prelude.{
  ◌≡◌, refl, inl, inr, Bool, true, false, Option, none, some, List, [], ◌∷◌, ◌==◌, ◌&&◌, ℕ_eq, any,
  contains, String, arith, In, In-find, Bool-cases, Option-cases, ==→≡, subst,
}
use ai_iam_platform.Model.{Ident, Agent, Binding}
use ai_iam_platform.Proxy.{
  resolved, is_server, check_url, find_binding, bindings_of, resolve_mcp_binding, resource_mismatch,
  task_mismatch, filter_mismatch,
}
use ai_iam_platform.Delegation.Grants.{agent_by_id_and_org}

check_url-address :
    (b b' : Binding) (o : Option String) (url : String)
    → check_url b o ≡ resolved url b'
    → (b ≡ b') × (o ≡ some url)
unfolding check_url
check_url-address b b' none url h = absurd (cc)
check_url-address b b' (some String.[]) url h = absurd (cc)
check_url-address b b' (some (String.◌∷◌ c rest)) url h = (cc, cc)

is_server-server : (i : Ident) (b : Binding) → is_server i b ≡ true → b.server_id ≡ some i
unfolding is_server
is_server-server i b h = elim (Option-cases b.server_id) [
  | inl e ↦ absurd (let bad = rw e at h in cc)
  | inr (j, e) ↦ let same = ==→≡ j i (rw e at h) in cc
]

pub find_binding-In :
    (bindings : List Binding) (i : Ident) (url : String) (b : Binding)
    → find_binding bindings i ≡ resolved url b
    → In b bindings × (b.server_id ≡ some i) × (b.server_url ≡ some url)
unfolding find_binding
find_binding-In [] i url b h = absurd (cc)
find_binding-In (x ∷ bindings) i url b h = elim (Bool-cases (is_server i x)) [
  | inl e ↦
      let (same, address) = check_url-address x b x.server_url url (rw e at h) in
      (
        inl same,
        subst (λ z. z.server_id ≡ some i) same (is_server-server i x e),
        subst (λ z. z.server_url ≡ some url) same address,
      )
  | inr e ↦
      let (place, id, address) = find_binding-In bindings i url b (rw e at h) in
      (inr place, id, address)
]

pub any-In :
    {A : Type 0} (p : A → Bool) (xs : List A) → any p xs ≡ true → (x : A) × In x xs × (p x ≡ true)
unfolding any
any-In p [] h = absurd (cc)
any-In p (x ∷ xs) h = elim (Bool-cases (p x)) [
  | inl e ↦ (x, inl refl, e)
  | inr e ↦ let (y, place, holds) = any-In p xs (ground arith) in (y, inr place, holds)
]

pub contains-In : (xs : List Ident) (x : Ident) → contains xs x ≡ true → In x xs
unfolding contains
contains-In [] x h = absurd (cc)
contains-In (y ∷ xs) x h = elim (Bool-cases (y == x)) [
  | inl e ↦ inl (==→≡ y x e)
  | inr e ↦ inr (contains-In xs x (rw e at h))
]

-- The binding is an entry of the calling agent's own row, for the server, with the address.
pub record IsOwnBinding (agents : List Agent) (agent_id org_id server : Ident) (url : String)
    (b : Binding) : Type 0 where
  pub agent : Agent
  pub listed : In agent agents
  pub own : agent.id ≡ agent_id
  pub org : agent.org_id ≡ org_id
  pub bound : In b agent.mcp_bindings
  pub server_id : b.server_id ≡ some server
  pub address : b.server_url ≡ some url

pub resolve_mcp_binding-IsOwnBinding :
    (agents : List Agent) (agent org server : Ident) (url : String) (b : Binding)
    → resolve_mcp_binding agents agent org server ≡ resolved url b
    → IsOwnBinding agents agent org server url b
unfolding resolve_mcp_binding agent_by_id_and_org bindings_of
resolve_mcp_binding-IsOwnBinding agents i org server url b h =
    let is_row = λ (a : Agent). (a.id == i) && (a.org_id == org) in
    elim (Option-cases (agent_by_id_and_org agents i org)) [
      | inl e ↦ absurd (let bad = rw e at h in cc)
      | inr (a, e) ↦
          let (place, holds) = In-find is_row agents a e in
          let (bound, id, address) = find_binding-In a.mcp_bindings server url b (rw e at h) in
          record {
            agent = a;
            listed = place;
            own = ==→≡ a.id i (ground arith);
            org = ==→≡ a.org_id org (ground arith);
            bound = bound;
            server_id = id;
            address = address;
          }
    ]

pub resource-matches :
    (t : Option Ident) (server : Ident)
    → resource_mismatch t server ≡ false
    → (i : Ident) → t ≡ some i
    → i ≡ server
unfolding resource_mismatch
resource-matches t server h i e = let k = rw e at h in ==→≡ i server (ground arith)

pub task-matches :
    (d : Option (List (Ident × Ident))) (server tool : Ident)
    → task_mismatch d server tool ≡ false
    → (entries : List (Ident × Ident)) → d ≡ some entries
    → In (server, tool) entries
unfolding task_mismatch
task-matches d server tool h entries e =
    let k = rw e at h in
    let (x, place, holds) = any-In (λ e. (e.0 == server) && (e.1 == tool)) entries (ground arith) in
    let p = ==→≡ x.0 server (ground arith) in
    let q = ==→≡ x.1 tool (ground arith) in subst (λ z. In z entries) (cc) place

pub filter-matches :
    (f : Option (List Ident)) (tool : Ident)
    → filter_mismatch f tool ≡ false
    → (tools : List Ident) → f ≡ some tools
    → In tool tools
unfolding filter_mismatch
filter-matches f tool h tools e = let k = rw e at h in contains-In tools tool (ground arith)

-- ===== src/Services/Registry/Stats.antt =====
-- The statistics of mtls_connection_registry.go.
use ephemos.Base.{
  ℕ, suc, ◌+◌, ◌≤◌, ◌<◌, ◌≡◌, refl, ap, List, [], ◌∷◌, map, arith, if◌then◌else◌, length, All,
}
use ephemos.GoTime.{before, after}
use ephemos.GoText.{Text}
use ephemos.Services.Registry.{
  Connection, ConnectionState, active, rotating, failed, closed, same_state, ConnectionStats,
  count_connection, count_connections, Registry, list_connections, no_stats, get_connection_stats,
}

-- The sum of the counts.
abbrev pub counted : ConnectionStats → ℕ
counted st =
    st.state_count active + st.state_count rotating + st.state_count failed + st.state_count closed

-- The count of one state goes up by one.
one_more :
    (k : ConnectionState) (f : ConnectionState → ℕ)
    → (if same_state k active then f active + 1 else f active)
        + (if same_state k rotating then f rotating + 1 else f rotating)
        + (if same_state k failed then f failed + 1 else f failed)
        + (if same_state k closed then f closed + 1 else f closed)
      ≡ f active + f rotating + f failed + f closed + 1
unfolding same_state
one_more active f = omega arith
one_more rotating f = omega arith
one_more failed f = omega arith
one_more closed f = omega arith

count_connection-counted :
    (st : ConnectionStats) (c : Connection) → counted (count_connection st c) ≡ counted st + 1
unfolding count_connection
count_connection-counted st c = one_more c.state st.state_count

count_connections-counted :
    (st : ConnectionStats) (cs : List Connection)
    → counted (count_connections st cs) ≡ counted st + length cs
unfolding count_connections
count_connections-counted st [] = omega arith
count_connections-counted st (c ∷ cs) =
    omega
      (arith, count_connections-counted (count_connection st c) cs, count_connection-counted st c)

-- The bounds of the statistics enclose a connection.
abbrev pub Encloses : ConnectionStats → Connection → Type 0
Encloses st c =
    (st.oldest_connection ≤ c.established_at)
    × (c.established_at ≤ st.newest_connection)
    × (c.last_rotated ≤ st.last_rotation)

-- A connection's instants, each after the zero time.
abbrev pub Timed : Connection → Type 0
Timed c = (0 < c.established_at) × (0 < c.last_rotated)

count_connection-Encloses :
    (st : ConnectionStats) (c : Connection)
    → Timed c
    → Encloses (count_connection st c) c × (0 < (count_connection st c).oldest_connection)
unfolding count_connection before after
count_connection-Encloses st c h = ground arith

count_connection-keeps :
    (st : ConnectionStats) (c d : Connection)
    → Timed c
    → Timed d
    → 0 < st.oldest_connection
    → Encloses st d
    → Encloses (count_connection st c) d × (0 < (count_connection st c).oldest_connection)
unfolding count_connection before after
count_connection-keeps st c d h k o e = ground arith

count_connections-keeps :
    (st : ConnectionStats) (cs : List Connection) (d : Connection)
    → All Timed cs
    → Timed d
    → 0 < st.oldest_connection
    → Encloses st d
    → Encloses (count_connections st cs) d
unfolding count_connections
count_connections-keeps st [] d h k o e = e
count_connections-keeps st (c ∷ cs) d (h, hs) k o e =
    let (f, q) = count_connection-keeps st c d h k o e in
    count_connections-keeps (count_connection st c) cs d hs k q f

count_connections-Encloses :
    (st : ConnectionStats) (cs : List Connection)
    → All Timed cs
    → All (Encloses (count_connections st cs)) cs
unfolding count_connections
count_connections-Encloses st [] h = tt
count_connections-Encloses st (c ∷ cs) (h, hs) =
    let (f, q) = count_connection-Encloses st c h in
    (
      count_connections-keeps (count_connection st c) cs c hs h q f,
      count_connections-Encloses (count_connection st c) cs hs,
    )

length-map {ℓ κ} :
    {A : Type ℓ} {B : Type κ} (f : A → B) (xs : List A) → length (map f xs) ≡ length xs
length-map f [] = refl
length-map f (x ∷ xs) = ap suc (length-map f xs)

count_connections-total :
    (st : ConnectionStats) (cs : List Connection)
    → (count_connections st cs).total_connections ≡ st.total_connections
unfolding count_connections count_connection
count_connections-total st [] = refl
count_connections-total st (c ∷ cs) = count_connections-total (count_connection st c) cs

-- The counts of the four states add up to the total number; the instants of the statistics enclose
-- those of every connection, if none of those is the zero time.
get_connection_stats_lem :
    (r : Registry)
    → (counted (get_connection_stats r) ≡ (get_connection_stats r).total_connections)
      × (All Timed (list_connections r)
          → All (Encloses (get_connection_stats r)) (list_connections r))
unfolding get_connection_stats list_connections
get_connection_stats_lem r = (
  omega (
    arith,
    count_connections-counted (no_stats r) (list_connections r),
    count_connections-total (no_stats r) (list_connections r),
    length-map (λ (kc : Text × Connection). kc.1) r.connections,
  ),
  count_connections-Encloses (no_stats r) (list_connections r),
)

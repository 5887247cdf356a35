-- ===== src/Driver/Ordinals.antt =====
-- The arguments of a statement reach the server in the order of their ordinals.
use ignite3_go_client.Base.{List, Bool, true, String, ◌≡◌, refl, ap}
use ignite3_go_client.Base.Int.{ℤ}
use ignite3_go_client.Base.Orders.{In, Ascends, one_order}
use ignite3_go_client.Tables.{less}
use ignite3_go_client.Tables.Keys.{less_asym}
use ignite3_go_client.Client.{Socket, Protocol}
use ignite3_go_client.Queries.{QueryPacker}
use ignite3_go_client.Driver.{Conn, NamedValue, values, finish_exec, exec_context, query_context}

-- `tmp[i].Ordinal < tmp[j].Ordinal`
abbrev pub by_ordinal : NamedValue → NamedValue → Bool
by_ordinal a b = less a.ordinal b.ordinal

by_ordinal_asym : (x y : NamedValue) → by_ordinal x y ≡ true → by_ordinal y x ≡ true → ⊥
by_ordinal_asym x y = less_asym x.ordinal y.ordinal

-- What sort.Slice does with arguments whose ordinals differ.
pub record Sorts (sort : List NamedValue → List NamedValue) (args : List NamedValue) : Type 0 where
  pub ascends : Ascends by_ordinal (sort args)
  pub only : (a : NamedValue) → In a (sort args) → In a args
  pub every : (a : NamedValue) → In a args → In a (sort args)

module _ (sort sort' : List NamedValue → List NamedValue) (args args' : List NamedValue)
    (h : Sorts sort args) (h' : Sorts sort' args') (to : (a : NamedValue) → In a args → In a args')
    (from : (a : NamedValue) → In a args' → In a args) where
  same_args : values (sort args) ≡ values (sort' args')
  same_args = ap values (
      one_order by_ordinal by_ordinal_asym (sort args) (sort' args') h.ascends h'.ascends
        (λ a i. h'.every a (to a (h.only a i))) (λ a i. h.every a (from a (h'.only a i))))

  -- Arguments with different ordinals, in whatever order database/sql hands them over and whatever way
  -- the two sorts work, make one and the same call of ExecContext, and of QueryContext: the result, what is
  -- sent and the connection behind it are the same.
  pub exec_context-ordinals :
      {M W : Type 0} (p : Protocol M) (s : Socket W) (k : QueryPacker) (now : ℤ) (query : String)
      (c : Conn W)
      → (exec_context p s k sort now query args c ≡ exec_context p s k sort' now query args' c)
        × (query_context p s k sort now query args c ≡ query_context p s k sort' now query args' c)
  unfolding exec_context query_context finish_exec
  exec_context-ordinals p s k now query c = rw same_args (refl, refl)

-- ===== src/Driver/DataSources/Order.antt =====
-- Go visits the parameters of a name in a random order.
use text.Mathlib.Text.{◌==◌ as str_eq}
use text.Mathlib.TextEquality.{eq_iff}
use mathlib.Core.List.{Permᴰ}
use ignite3_go_client.Base.Orders.{Pairs, Perm-Pairs}
use ignite3_go_client.Base.{
  ℕ, zero, suc, List, ◌∷◌, String, true, ◌≡◌, ◌≢◌, ◌⊎◌, inl, inr, refl, sym, ap, ◌∙◌, subst,
  if_elim, arith,
}
use ignite3_go_client.Base.Result.{Result, ok, err, panic, or_wrap, ok_inj, ◌>>=◌, >>=-eq-ok}
use ignite3_go_client.Driver.DataSources.{
  UrlLib, Settings, Setting, unchanged, schema_is, username_is, password_is, version_is, tls_is,
  skip_verify_is, page_size_is, timeout_is, assign, number, parse_yes_no, unless_empty, setting_of,
  read_param, read_params,
}

-- The field that an assignment changes, 0 for none.
abbrev pub field_of : Setting → ℕ
field_of unchanged = 0
field_of (schema_is v) = 1
field_of (username_is v) = 2
field_of (password_is v) = 3
field_of (version_is v) = 4
field_of (tls_is v) = 5
field_of (skip_verify_is v) = 6
field_of (page_size_is v) = 7
field_of (timeout_is v) = 8

-- The name in lower case of the parameter that changes a field
abbrev name_of : ℕ → String
name_of (suc zero) = "schema"
name_of (suc (suc zero)) = "username"
name_of (suc (suc (suc zero))) = "password"
name_of (suc (suc (suc (suc zero)))) = "version"
name_of (suc (suc (suc (suc (suc zero))))) = "tls"
name_of (suc (suc (suc (suc (suc (suc zero)))))) = "tls-insecure-skip-verify"
name_of (suc (suc (suc (suc (suc (suc (suc zero))))))) = "page-size"
name_of (suc (suc (suc (suc (suc (suc (suc (suc zero)))))))) = "timeout"
name_of _ = ""

-- Two parameters that do not change the same field.
abbrev pub Differ : Setting → Setting → Type 0
Differ x y = field_of x ≡ field_of y → field_of x ≡ 0

assign_comm :
    (x y : Setting) (s : Settings) → Differ x y → assign x (assign y s) ≡ assign y (assign x s)
unfolding assign
assign_comm (schema_is v) (schema_is w) s h = absurd (omega (arith, h refl))
assign_comm (username_is v) (username_is w) s h = absurd (omega (arith, h refl))
assign_comm (password_is v) (password_is w) s h = absurd (omega (arith, h refl))
assign_comm (version_is v) (version_is w) s h = absurd (omega (arith, h refl))
assign_comm (tls_is v) (tls_is w) s h = absurd (omega (arith, h refl))
assign_comm (skip_verify_is v) (skip_verify_is w) s h = absurd (omega (arith, h refl))
assign_comm (page_size_is v) (page_size_is w) s h = absurd (omega (arith, h refl))
assign_comm (timeout_is v) (timeout_is w) s h = absurd (omega (arith, h refl))
assign_comm x y s h = refl

module _ (lib : UrlLib) where
  read_params-exchange_head :
      (more : List (String × List String)) (a b : String × List String) (t out : Settings)
      → ((x y : Setting) → read_param lib a ≡ ok x → read_param lib b ≡ ok y → Differ x y)
      → read_params lib (a ∷ b ∷ more) t ≡ ok out
      → read_params lib (b ∷ a ∷ more) t ≡ ok out
  unfolding read_params
  read_params-exchange_head more a b t out h f =
      let (x, ex, e1) = >>=-eq-ok (read_param lib a) _ f in
      let (y, ey, e2) = >>=-eq-ok (read_param lib b) _ e1 in
      rw (ey, ex)
        (subst (λ u. read_params lib more u ≡ ok out) (sym (assign_comm x y t (h x y ex ey))) e2)

  -- The name, in lower case, of a parameter that makes an assignment.
  abbrev IsNamed : String → Setting → Type 0
  IsNamed k x = (field_of x ≡ 0) ⊎ (k ≡ name_of (field_of x))

  abbrev NamesIt : String → Result Setting → Type 0
  NamesIt k r = (x : Setting) → r ≡ ok x → IsNamed k x

  -- A case of the switch, on a test that succeeded.
  case_IsNamed :
      {A : Type 0} (k name : String) (m : String) (r : Result A) (set : A → Setting)
      → k ≡ name
      → ((a : A) → name_of (field_of (set a)) ≡ name)
      → NamesIt k (or_wrap m (do a ← r; ok (set a)))
  case_IsNamed k name m (ok a) set e h x o = subst (IsNamed k) (ok_inj o) (inr (e ∙ sym (h a)))
  case_IsNamed k name m (err z) set e h x o = cc
  case_IsNamed k name m panic set e h x o = cc

  unless_empty_IsNamed :
      (k v : String) (r : Result Setting) → NamesIt k r → NamesIt k (unless_empty lib v r)
  unless_empty_IsNamed k v r h =
      if_elim (NamesIt k) (str_eq v "") (ok unchanged) r
        (λ _ x o. subst (IsNamed k) (ok_inj o) (inl refl)) (λ _. h)

  setting_of-IsNamed : (k v : String) → NamesIt k (setting_of lib k v)
  unfolding setting_of
  setting_of-IsNamed k v =
      let is : (name : String) → str_eq k name ≡ true → k ≡ name = λ name t. (eq_iff k name).0 t in
      if_elim (NamesIt k) (str_eq k "schema") _ _
        (λ t x o. subst (IsNamed k) (ok_inj o) (inr (is "schema" t)))
        λ _.
          if_elim (NamesIt k) (str_eq k "version") _ _
            (λ t. unless_empty_IsNamed k v _ (
              case_IsNamed k "version" _ (lib.new_version v) version_is (is "version" t)
                (λ a. refl)))
            λ _.
              if_elim (NamesIt k) (str_eq k "username") _ _
                (λ t x o. subst (IsNamed k) (ok_inj o) (inr (is "username" t)))
                λ _.
                  if_elim (NamesIt k) (str_eq k "password") _ _
                    (λ t x o. subst (IsNamed k) (ok_inj o) (inr (is "password" t)))
                    λ _.
                      if_elim (NamesIt k) (str_eq k "tls") _ _
                        (λ t.
                          case_IsNamed k "tls" _ (parse_yes_no lib v) tls_is (is "tls" t)
                            (λ a. refl))
                        λ _.
                          if_elim (NamesIt k) (str_eq k "tls-insecure-skip-verify") _ _
                            (λ t.
                              case_IsNamed k "tls-insecure-skip-verify" _ (parse_yes_no lib v)
                                skip_verify_is (is "tls-insecure-skip-verify" t) (λ a. refl))
                            λ _.
                              if_elim (NamesIt k) (str_eq k "page-size") _ _
                                (λ t. unless_empty_IsNamed k v _ (
                                  case_IsNamed k "page-size" _ (number (lib.atoi v)) page_size_is
                                    (is "page-size" t) (λ a. refl)))
                                λ _.
                                  if_elim (NamesIt k) (str_eq k "timeout") _ _
                                    (λ t. unless_empty_IsNamed k v _ (
                                      case_IsNamed k "timeout" _ (number (lib.parse_int v))
                                        timeout_is (is "timeout" t) (λ a. refl)))
                                    (λ _ x o. cc)

  -- The names of two parameters differ, in upper and lower case alike.
  abbrev pub NamesDiffer : String × List String → String × List String → Type 0
  NamesDiffer a b = lib.to_lower a.0 ≢ lib.to_lower b.0

  NamesDiffer-Differ :
      (a b : String × List String) (x y : Setting)
      → NamesDiffer a b
      → read_param lib a ≡ ok x
      → read_param lib b ≡ ok y
      → Differ x y
  unfolding read_param
  NamesDiffer-Differ (j, u) (k, v) x y apart ex ey same = elim (setting_of-IsNamed _ _ x ex) [
    | inl none ↦ none
    | inr named ↦ elim (setting_of-IsNamed _ _ y ey) [
      | inl none ↦ same ∙ none
      | inr named' ↦ absurd (apart (named ∙ ap name_of same ∙ sym named'))
    ]
  ]

  -- In whatever order `range` visits the parameters of a name, it is accepted with the same settings,
  -- provided that no two of the parameters have names that differ only in upper and lower case.
  pub read_params-order :
      {kvs kvs' : List (String × List String)} (s out : Settings)
      → Permᴰ kvs kvs'
      → Pairs NamesDiffer kvs
      → read_params lib kvs s ≡ ok out
      → read_params lib kvs' s ≡ ok out
  unfolding read_params
  read_params-order s out Permᴰ.nil h e = e
  read_params-order s out (Permᴰ.cons {a = a} {l₂ = l₂} f p) (_, h) e =
      let (x, ex, rest) = >>=-eq-ok (read_param lib a) _ e in
      subst (λ b. read_params lib (b ∷ l₂) s ≡ ok out) f
        (rw ex (read_params-order (assign x s) out p h rest))
  read_params-order s out (Permᴰ.swap {a = a} {b = b} {b' = b'} {l = l} f g) (h, _) e =
      subst (λ (c : String × List String). read_params lib (c ∷ b' ∷ l) s ≡ ok out) g
        (subst (λ c. read_params lib (b ∷ c ∷ l) s ≡ ok out) f
          (read_params-exchange_head l a b s out
            (λ x y. NamesDiffer-Differ a b x y (h b (inl refl))) e))
  read_params-order s out (Permᴰ.trans p q) h e =
      read_params-order s out q (Perm-Pairs NamesDiffer (λ a b apart eq. apart (sym eq)) p h)
        (read_params-order s out p h e)

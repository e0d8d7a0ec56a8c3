-- ===== src/Store/Keys/Ids.antt =====
-- No two hashes lead to API keys of one identifier.
use aiyolo.Base.{String, ◌≡◌, false, not, ◌&&◌, ◌===◌, eq_iff, [], ◌∷◌, none, All, arith}
use aiyolo.Dict.{Dict, lookup, insert, delete_where, UniqueKeys, string_key}
use aiyolo.Dict.Laws.{insert-UniqueKeys, delete_where-UniqueKeys}
use aiyolo.Domain.ApiKeys.{ApiKey}
use aiyolo.Store.Keys.{put_api_key}

-- No key of the map has the identifier.
abbrev pub IdFree : String → Dict String ApiKey → Type 0
IdFree id m = All (λ e. (e.1.id === id) ≡ false) m

abbrev pub UniqueIds : Dict String ApiKey → Type 0
UniqueIds [] = Unit
UniqueIds ((h, k) ∷ m) = IdFree k.id m × UniqueIds m

-- Only the hash may lead to a key of the identifier.
abbrev OnlyAt : String → String → Dict String ApiKey → Type 0
OnlyAt id hash m = All (λ e. (e.1.id === id && not (e.0 === hash)) ≡ false) m

abbrev drop_others : ApiKey → Dict String ApiKey → Dict String ApiKey
drop_others key =
    delete_where (λ hash existing. existing.id === key.id && not (hash === key.key_hash))

drop_others-OnlyAt :
    (key : ApiKey) (m : Dict String ApiKey) → OnlyAt key.id key.key_hash (drop_others key m)
unfolding delete_where
drop_others-OnlyAt key [] = tt
drop_others-OnlyAt key ((h, k) ∷ m) = ground (arith, drop_others-OnlyAt key m)

IdFree-drop_others :
    (id : String) (key : ApiKey) (m : Dict String ApiKey)
    → IdFree id m
    → IdFree id (drop_others key m)
unfolding delete_where
IdFree-drop_others id key [] h = tt
IdFree-drop_others id key ((j, k) ∷ m) h = ground (arith, IdFree-drop_others id key m h.1)

UniqueIds-drop_others :
    (key : ApiKey) (m : Dict String ApiKey) → UniqueIds m → UniqueIds (drop_others key m)
unfolding delete_where
UniqueIds-drop_others key [] h = tt
UniqueIds-drop_others key ((j, k) ∷ m) h =
    ground (arith, UniqueIds-drop_others key m h.1, IdFree-drop_others k.id key m h.0)

OnlyAt-IdFree :
    (id hash : String) (m : Dict String ApiKey)
    → lookup hash m ≡ none
    → OnlyAt id hash m
    → IdFree id m
unfolding lookup
OnlyAt-IdFree id hash [] h o = tt
OnlyAt-IdFree id hash ((j, k) ∷ m) h o = ground (arith, OnlyAt-IdFree id hash m, eq_iff j hash)

IdFree-insert :
    (id hash : String) (key : ApiKey) (m : Dict String ApiKey)
    → IdFree id m
    → (key.id === id) ≡ false
    → IdFree id (insert hash key m)
unfolding insert
IdFree-insert id hash key [] h n = (n, tt)
IdFree-insert id hash key ((j, k) ∷ m) h n = ground (arith, IdFree-insert id hash key m)

insert-UniqueIds :
    (hash : String) (key : ApiKey) (m : Dict String ApiKey)
    → UniqueKeys m
    → UniqueIds m
    → OnlyAt key.id hash m
    → UniqueIds (insert hash key m)
unfolding insert
insert-UniqueIds hash key [] u d o = (tt, tt)
insert-UniqueIds hash key ((j, k) ∷ m) u d o = ground (
  arith,
  insert-UniqueIds hash key m,
  OnlyAt-IdFree key.id hash m,
  IdFree-insert k.id hash key m,
  eq_iff j hash,
  eq_iff k.id key.id,
  eq_iff key.id k.id,
)

-- The invariant of the key map.
abbrev pub KeysInv : Dict String ApiKey → Type 0
KeysInv m = UniqueKeys m × UniqueIds m

pub put_api_key-KeysInv :
    (key : ApiKey) (m : Dict String ApiKey) → KeysInv m → KeysInv (put_api_key key m)
unfolding put_api_key
put_api_key-KeysInv key m h =
    let kept : UniqueKeys (drop_others key m) = delete_where-UniqueKeys _ m h.0 in
    (
      insert-UniqueKeys key.key_hash key (drop_others key m) kept,
      insert-UniqueIds key.key_hash key (drop_others key m) kept (UniqueIds-drop_others key m h.1)
          (drop_others-OnlyAt key m),
    )

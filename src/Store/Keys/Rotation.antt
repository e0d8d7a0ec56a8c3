-- ===== src/Store/Keys/Rotation.antt =====
-- What a lookup by hash finds after a key was created, replaced or used.
use aiyolo.Base.{
  String, ◌≡◌, ◌≢◌, refl, sym, ◌===◌, eq_iff, [], ◌∷◌, Option, none, some, arith, if◌then◌else◌,
}
use aiyolo.Dict.{Dict, lookup, UniqueKeys, string_key}
use aiyolo.Dict.Laws.{lookup-insert_self, lookup-insert_ne, lookup-delete_where-some}
use aiyolo.Domain.Time.{Time, or_now}
use aiyolo.Domain.ApiKeys.{ApiKey}
use aiyolo.Store.State.{MemoryStore, ok, err, not_found}
use aiyolo.Store.Keys.{put_api_key, create_api_key, find_api_key_by_hash, touch_keys, touch_api_key}
use aiyolo.Store.Keys.Ids.{KeysInv, UniqueIds, IdFree, put_api_key-KeysInv}

pub lookup-put_api_key :
    (key : ApiKey) (m : Dict String ApiKey) (h : String) (k : ApiKey)
    → KeysInv m
    → lookup h m ≡ some k
    → h ≢ key.key_hash
    → lookup h (put_api_key key m) ≡ (if k.id === key.id then none else some k)
unfolding put_api_key
lookup-put_api_key key m h k inv e ne =
    rw (lookup-insert_ne key.key_hash h key _ (λ q. ne (sym q)))
      (rw (lookup-delete_where-some _ h k m e inv.0) (ground (arith, eq_iff h key.key_hash)))

module _ (clock : Time) (key : ApiKey) (s : MemoryStore) where
  -- Creating a key keeps the key map's invariant; the key is then found under its hash, a hash that
  -- led to an earlier key of its identifier leads nowhere, and any other key is found as before.
  pub create-find :
      KeysInv s.api_keys
      → let s' = create_api_key clock key s in
        KeysInv s'.api_keys
        × (find_api_key_by_hash key.key_hash s'
            ≡ ok (record key { created_at = or_now clock key.created_at }))
        × ((h : String) (k : ApiKey)
            → h ≢ key.key_hash
            → find_api_key_by_hash h s ≡ ok k
            → find_api_key_by_hash h s' ≡ (if k.id === key.id then err not_found else ok k))
  unfolding create_api_key find_api_key_by_hash
  create-find inv = (
    put_api_key-KeysInv _ s.api_keys inv,
    rw (lookup-insert_self key.key_hash _ _),
    λ h k ne e. ground (
      arith,
      lookup-put_api_key (record key { created_at = or_now clock key.created_at }) s.api_keys h k
          inv (ground arith) ne,
    ),
  )

touched : Time → String → Option ApiKey → Option ApiKey
touched clock id none = none
touched clock id (some k) = some (if k.id === id then record k { last_used_at = some clock } else k)

lookup-IdFree :
    (id h : String) (m : Dict String ApiKey) (clock : Time)
    → IdFree id m
    → touched clock id (lookup h m) ≡ lookup h m
unfolding lookup touched
lookup-IdFree id h [] clock f = refl
lookup-IdFree id h ((j, k) ∷ m) clock f = ground (arith, lookup-IdFree id h m clock f.1)

lookup-touch_keys :
    (clock : Time) (id h : String) (m : Dict String ApiKey)
    → UniqueIds m
    → lookup h (touch_keys clock id m) ≡ touched clock id (lookup h m)
unfolding lookup touched touch_keys
lookup-touch_keys clock id h [] u = refl
lookup-touch_keys clock id h ((j, k) ∷ m) u =
    ground (arith, lookup-touch_keys clock id h m u.1, lookup-IdFree id h m clock, eq_iff k.id id)

touch_keys-IdFree :
    (clock : Time) (id i : String) (m : Dict String ApiKey)
    → IdFree i m
    → IdFree i (touch_keys clock id m)
unfolding touch_keys
touch_keys-IdFree clock id i [] f = tt
touch_keys-IdFree clock id i ((j, k) ∷ m) f = ground (arith, touch_keys-IdFree clock id i m f.1)

touch_keys-UniqueIds :
    (clock : Time) (id : String) (m : Dict String ApiKey)
    → UniqueIds m
    → UniqueIds (touch_keys clock id m)
unfolding touch_keys
touch_keys-UniqueIds clock id [] u = tt
touch_keys-UniqueIds clock id ((j, k) ∷ m) u =
    ground (arith, touch_keys-UniqueIds clock id m u.1, touch_keys-IdFree clock id k.id m u.0)

lookup-touch_keys-none :
    (clock : Time) (id h : String) (m : Dict String ApiKey)
    → lookup h m ≡ none
    → lookup h (touch_keys clock id m) ≡ none
unfolding lookup touch_keys
lookup-touch_keys-none clock id h [] e = refl
lookup-touch_keys-none clock id h ((j, k) ∷ m) e =
    ground (arith, lookup-touch_keys-none clock id h m)

touch_keys-UniqueKeys :
    (clock : Time) (id : String) (m : Dict String ApiKey)
    → UniqueKeys m
    → UniqueKeys (touch_keys clock id m)
unfolding touch_keys
touch_keys-UniqueKeys clock id [] u = tt
touch_keys-UniqueKeys clock id ((j, k) ∷ m) u =
    ground (arith, touch_keys-UniqueKeys clock id m u.1, lookup-touch_keys-none clock id j m u.0)

-- Touching an identifier keeps the key map's invariant, and changes nothing but the last use of the
-- key with the identifier, whichever hash it is found under.
pub touch-find :
    (clock : Time) (id : String) (s : MemoryStore)
    → KeysInv s.api_keys
    → let s' = touch_api_key clock id s in
      KeysInv s'.api_keys
      × ((h : String)
          → (find_api_key_by_hash h s ≡ err not_found → find_api_key_by_hash h s' ≡ err not_found)
            × ((k : ApiKey)
                → find_api_key_by_hash h s ≡ ok k
                → find_api_key_by_hash h s'
                  ≡ ok (if k.id === id then record k { last_used_at = some clock } else k)))
unfolding touch_api_key find_api_key_by_hash touched
touch-find clock id s inv = (
  (touch_keys-UniqueKeys clock id s.api_keys inv.0, touch_keys-UniqueIds clock id s.api_keys inv.1),
  λ h. (
    (λ e. ground (arith, lookup-touch_keys clock id h s.api_keys inv.1)),
    (λ k e. ground (arith, lookup-touch_keys clock id h s.api_keys inv.1)),
  ),
)

-- ===== src/Queue/Manager/Listing.antt =====
-- `GetQueueItems` of manager.go: the queue of a group in the order in which it is worked off.
use asika.Prelude.{Bool, true, false, Option, none, some, List, [], ◌∷◌, ◌++◌, Bytes, lit}
use asika.Models.{QueueItem}
use asika.Db.{Bucket, with_prefix}
use asika.Queue.World.{World}
use asika.Queue.Store.{State}
use asika.Queue.Manager.Cycle.{sort_items}

-- The items before the first entry that does not parse, and whether all parse.
pub read_items : Bucket (Option QueueItem) → List QueueItem × Bool
read_items [] = ([], true)
read_items ((k, none) ∷ m) = ([], false)
read_items ((k, some item) ∷ m) = let (items, all) = read_items m in (item ∷ items, all)

-- The items come with the error, if there is one.
pub get_queue_items : World → Bytes → State → List QueueItem × Bool
unfolding read_items
get_queue_items w group st =
    let (items, all) = read_items (with_prefix (group ++ lit "#") st.queue) in
    (sort_items w items, all)

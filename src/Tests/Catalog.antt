-- ===== src/Tests/Catalog.antt =====
-- A store with one image, to which another is added and from which the first is removed.
use hauler.Base.{List, [], ◌∷◌}
use hauler.Base.Dict
use hauler.Base.Dict.{Dict}
use hauler.Store.Catalog.{Catalog, Request, adding, removing, resolving}
use hauler.Tests.Index.{first_key, second_key, second, one_image, io}

abbrev first_only : Catalog
first_only ref = Dict.lookup ref one_image.name_map

abbrev requests : List Request
requests =
    adding io 5 second_key second
    ∷ removing io 6 first_key
    ∷ resolving second_key
    ∷ resolving first_key
    ∷ []

-- ===== src/Acceptor/Tests.antt =====
-- Acceptor.antt where the descriptors run out, and the theorem there.
use moban.Acceptor.{accepted, refused, emfile, Acceptor, accept}
use moban.Acceptor.Laws.{Event, sets_callback, listens, reads}
use moban.Prelude.{◌≡◌, refl, none, some, List, [], ◌∷◌}

-- A connection is given to the server; the next finds no descriptor, and is dropped by way of 3, the
-- idle one, which is opened again.
abbrev busy : List Event
busy =
    sets_callback
    ∷ listens
    ∷ reads (accepted 7) none none
    ∷ reads (refused emfile) (some 3) (some 3)
    ∷ []

-- The process ends where the whole system has no descriptor left (ENFILE).
enfile_ends : accept (refused 23) ≡ none
unfolding accept
enfile_ends = refl

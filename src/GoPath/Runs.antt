-- ===== src/GoPath/Runs.antt =====
-- Runs of path.Clean, path.Dir, path.Base and path.Match.
use weave_ftpd.Base.{◌≡◌, refl, codes, true, false}
use weave_ftpd.GoPath.Clean.{clean, dir, base}
use weave_ftpd.GoPath.Glob.{glob}

clean_runs :
    (clean (codes "/a/../../etc//./x/") ≡ codes "/etc/x")
    × (clean (codes "") ≡ codes ".")
    × (clean (codes "../a/../..") ≡ codes "../..")
    × (clean (codes "/..") ≡ codes "/")
unfolding clean
clean_runs = (refl, refl, refl, refl)

dir_runs :
    (dir (codes "/a/b") ≡ codes "/a")
    × (dir (codes "/a") ≡ codes "/")
    × (dir (codes "/") ≡ codes "/")
    × (base (codes "/a/b.sfv") ≡ codes "b.sfv")
    × (base (codes "/") ≡ codes "/")
unfolding dir base
dir_runs = (refl, refl, refl, refl, refl)

glob_runs :
    (glob (codes "10.0.*") (codes "10.0.0.7") ≡ true)
    × (glob (codes "/site/*") (codes "/site/a/b") ≡ false)
    × (glob (codes "/site/*/[a-c]?") (codes "/site/x/b9") ≡ true)
    × (glob (codes "[a") (codes "a") ≡ false)
    × (glob (codes "*[^x]*c") (codes "a/c") ≡ false)
    × (glob (codes "a*b*c") (codes "aXbYbc") ≡ true)
unfolding glob
glob_runs = (refl, refl, refl, refl, refl, refl)

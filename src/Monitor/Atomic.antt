-- ===== src/Monitor/Atomic.antt =====
-- What readers of the metrics file see.
use zfsbackup.Base.{
  ◌≡◌, ◌≢◌, refl, ap, ◌∙◌, inl, inr, Bool, true, false, Option, none, some, Bytes, Bool-cases,
  Result, ok, err, cannot_publish,
}
use zfsbackup.Exec.{Host}
use zfsbackup.Monitor.Publish.{Files, try, fill_and_rename, write_prometheus_file}

-- A file system as POSIX describes it: `content` is what a reader finds at a path. A temporary file
-- has a name of its own, writes touch the file that is written, and rename replaces a path at once
-- or does nothing.
pub record IsFileSystem (H : Host) (F : Files H) : Type 0 where
  pub content : H.State → Bytes → Option Bytes
  pub temp_is_new :
      (path : Bytes) (s : H.State) {tmp : Bytes} → (F.create_temp path s).0 ≡ some tmp → path ≢ tmp
  pub temp_keeps :
      (path : Bytes) (s : H.State) → content (F.create_temp path s).1 path ≡ content s path
  pub make_readable_keeps :
      (tmp path : Bytes) (s : H.State) → content (F.make_readable tmp s).1 path ≡ content s path
  pub close_keeps :
      (tmp path : Bytes) (s : H.State) → content (F.close tmp s).1 path ≡ content s path
  pub write_keeps :
      (tmp text path : Bytes) (s : H.State)
      → path ≢ tmp
      → content (F.write tmp text s).1 path ≡ content s path
  pub written :
      (tmp text : Bytes) (s : H.State)
      → (F.write tmp text s).0 ≡ true
      → content (F.write tmp text s).1 tmp ≡ some text
  pub renamed :
      (tmp path : Bytes) (s : H.State)
      → (F.rename tmp path s).0 ≡ true
      → content (F.rename tmp path s).1 path ≡ content s tmp
  pub not_renamed :
      (tmp path : Bytes) (s : H.State)
      → (F.rename tmp path s).0 ≡ false
      → content (F.rename tmp path s).1 path ≡ content s path
  pub discard_keeps :
      (tmp path : Bytes) (s : H.State)
      → path ≢ tmp
      → content (F.discard tmp s) path ≡ content s path

-- The new text where the write succeeds, and what was there before where it fails.
pub published : Result (Unit {0}) → Bytes → Option Bytes → Option Bytes
published (ok u) text before = some text
published (err e) text before = before

module _ (H : Host) (F : Files H) (P : IsFileSystem H F) where
  try-true :
      (f : H.State → Bool × H.State) (s : H.State) → (f s).0 ≡ true → try H F f s ≡ (ok tt, (f s).1)
  unfolding try
  try-true f s h = rw (try, h) refl

  try-false :
      (f : H.State → Bool × H.State) (s : H.State)
      → (f s).0 ≡ false
      → try H F f s ≡ (err cannot_publish, (f s).1)
  unfolding try
  try-false f s h = rw (try, h) refl

  module _ (tmp path text : Bytes) where
    Sees : Result (Unit {0}) × H.State → H.State → Type 0
    Sees r s = P.content r.1 path ≡ published r.0 text (P.content s path)

    rename-Sees :
        (s : H.State) → P.content s tmp ≡ some text → Sees (try H F (F.rename tmp path) s) s
    unfolding Sees published
    rename-Sees s h = elim (Bool-cases (F.rename tmp path s).0) [
      | inl e ↦ rw (try-true (F.rename tmp path) s e) (P.renamed tmp path s e ∙ h)
      | inr e ↦ rw (try-false (F.rename tmp path) s e) (P.not_renamed tmp path s e)
    ]

    fill-Sees : path ≢ tmp → (s : H.State) → Sees (fill_and_rename H F tmp path text s) s
    unfolding Sees published fill_and_rename
    fill-Sees apart s =
        let s1 = (F.make_readable tmp s).1 in
        let s2 = (F.write tmp text s1).1 in
        let s3 = (F.close tmp s2).1 in
        let readable = try H F (F.make_readable tmp) in
        let open1 = P.make_readable_keeps tmp path s in
        let open2 = P.write_keeps tmp text path s1 apart ∙ open1 in
        let open3 = P.close_keeps tmp path s2 ∙ open2 in
        elim (Bool-cases (F.make_readable tmp s).0) [
          | inr e ↦ rw (fill_and_rename, try-false (F.make_readable tmp) s e) open1
          | inl e ↦ elim (Bool-cases (F.write tmp text s1).0) [
            | inr f ↦
                rw
                  (
                    fill_and_rename,
                    try-true (F.make_readable tmp) s e,
                    try-false (F.write tmp text) s1 f,
                  )
                  open2
            | inl f ↦ elim (Bool-cases (F.close tmp s2).0) [
              | inr g ↦
                  rw
                    (
                      fill_and_rename,
                      try-true (F.make_readable tmp) s e,
                      try-true (F.write tmp text) s1 f,
                      try-false (F.close tmp) s2 g,
                    )
                    open3
              | inl g ↦
                  rw
                    (
                      fill_and_rename,
                      try-true (F.make_readable tmp) s e,
                      try-true (F.write tmp text) s1 f,
                      try-true (F.close tmp) s2 g,
                    )
                    (rename-Sees s3 (P.close_keeps tmp tmp s2 ∙ P.written tmp text s1 f)
                      ∙ ap (published (try H F (F.rename tmp path) s3).0 text) open3)
            ]
          ]
        ]

  -- On a file system as POSIX describes it, a reader of the metrics file finds the whole new text
  -- where writePrometheusFile succeeds, and what was there before where it fails at any step; never
  -- a part of the text.
  pub write_prometheus_file_atomic :
      (path text : Bytes) (s : H.State)
      → let (r, t) = write_prometheus_file H F path text s in
        P.content t path ≡ published r text (P.content s path)
  unfolding write_prometheus_file published Sees
  write_prometheus_file_atomic path text s = go (F.create_temp path s).0 refl
    where
      go :
          (made : Option Bytes)
          → (F.create_temp path s).0 ≡ made
          → let (r, t) = write_prometheus_file H F path text s in
            P.content t path ≡ published r text (P.content s path)
      go none e = rw (write_prometheus_file, e) (P.temp_keeps path s)
      go (some tmp) e =
          let apart = P.temp_is_new path s e in
          let s1 = (F.create_temp path s).1 in
          let filled = fill_and_rename H F tmp path text s1 in
          rw (write_prometheus_file, e)
            (P.discard_keeps tmp path filled.1 apart
              ∙ fill-Sees tmp path text apart s1
              ∙ ap (published filled.0 text) (P.temp_keeps path s))

-- ===== src/Catalog/Failures.antt =====
-- What leaves `PostgresCatalog.load` instead of a snapshot (metadata/catalog.py).
use query_boy.Base.{String}

pub data CatalogFailure : Type 0 where
  -- `_CatalogValidationError` with its message
  invalid : String → CatalogFailure
  -- `ReaderSessionPolicyError`
  reader_policy : CatalogFailure
  -- a `ValueError` that is no `_CatalogValidationError`
  value_error : CatalogFailure
  -- an error of the pool or of the database
  database : CatalogFailure
  -- `asyncio.CancelledError`
  cancelled : CatalogFailure

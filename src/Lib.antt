-- ===== src/Lib.antt =====
-- Verification library for the gateway service of the Ansible Automation Platform: the parts of
-- aap_gateway_api that decide who may pass and what the other services learn about the caller.
--
-- Parts of the program and the files that model them; paths of the source are below
-- aap_gateway_api/.
--
-- - Proxy: proxy/control_plane.py with utils/jwt_cache.py and utils/jwt_token.py. Envoy asks
--   this server about every request. `check` is `_ExternalAuth.Check`: it builds the Django
--   request, tries the guards that skip authentication, reads the user, and answers with
--   headers for the service, with a denial, or by raising. It reads and writes the cache of
--   signed tokens, which is the state of the model (Proxy/Session). Proxy/Profiling is the
--   wrapper `ExternalAuth.Check` around it.
-- - Orchestration: management/commands/migrate_service_data.py with
--   _migrate_service_data/service_orchestration.py. The command goes through its phases and the
--   services in their order, and marks the migration as completed at the end; its state is that
--   flag and the state of an interface of phases, `Phases`, whose operations stand for the
--   requests to a service and for the parts of the migration that have modules of their own.
--   Orchestration/Parts puts UserMerge, ResourceMigration and RoleAssignments in their places,
--   on one state that all phases read and write.
-- - ServiceTokenAuth: authentication/service_token_auth.py with models/migrate_data.py.
--   Requests with a service token are refused until the flag is set; the state is the flag, the
--   process's cache of it for five seconds and what ServiceToken reads. ServiceTokenAuth/Lock
--   puts it together with the command.
-- - ServiceToken: utils/service_token.py. Services that call the gateway sign their requests
--   with a key of their cluster; `validate_service_token` finds the cluster, tries its active
--   keys from the newest on, and names the user.
-- - ServiceIdSync: utils/service_id_sync.py. For a token of an unknown issuer, service token
--   validation asks the registered services for their ids, at most once a minute for each
--   issuer. The state is the dictionary of attempts of the process and the table of clusters,
--   which other workers change meanwhile.
-- - ResourceMigration: management/commands/_migrate_service_data/resource_migration.py with
--   superuser_sync.py. Resources of a service are taken over page by page: validated, linked to
--   the gateway's own or created there, and sent back in a bulk update. The state is the
--   gateway's tables and the service; ResourceMigration holds the bulk update,
--   ResourceMigration/Page a page and the loop, ResourceMigration/Consistency the pass over
--   superusers after it.
-- - RoleAssignments: management/commands/_migrate_service_data/role_assignments.py with
--   cursor_store.py. The role assignments of a service are read in pages by increasing id,
--   resolved by the gateway's tables and created in bulk; the last id of each page is saved as
--   a cursor. The state is the tables of the permission library and of the cursors. The root
--   file holds the resolution, RoleAssignments/Create the rows of a page, and
--   RoleAssignments/Cursor the loop. A run that is out of fuel is one that is stopped between
--   two pages.
-- - Routes: models/route.py with service_cluster.py, http_port.py and utils/xds_configs.py. The
--   configuration that Envoy is given for a port: its routes in their order, with the external
--   authorisation of each (Routes, Routes/Listener), and the clusters of service nodes that
--   they lead to (Routes/Clusters). Routes/Guards puts the context extensions of a route
--   together with what Proxy/Request reads of them.
-- - SecretRotation: management/commands/rotate_secret_key.py with utils/encryption.py. The
--   command decrypts every stored secret with the current key and encrypts it with a new one, a
--   page of rows at a time; the state is the tables, the authenticator settings and the
--   preference cache (SecretRotation/Handle). A pass also returns how many values it encrypted
--   and skipped.
-- - UserMerge: utils/user_migration.py and, in UserMerge/Groups,
--   management/commands/_migrate_service_data/user_merge.py. Before the migration, the users
--   that services have brought are grouped by their names without the prefixes of services, and
--   each group is merged into its first account. The state is the tables of users, their
--   original accounts and authenticators, and the services, which are told of each merge; a
--   transaction that raises restores the tables.
-- - Users: serializers/user.py with models/user.py. A request for a user is validated
--   (Users/Password, Users/Associated, Users/Fields), written to the accounts at authenticators
--   (Users/Writes, Users/Update) and saved (Users/Model). The state is the tables of users and
--   of their accounts, and the cache of gateway tokens, which Proxy reads.
--
-- Prelude holds what these share: tests on numbers, lists, texts as lists of code points,
-- Python dictionaries as association lists, and decimal numerals.
--
-- Conventions: a Python exception is a value of the result type; `None` is `none`, and Python's
-- other false values are tested where the code tests truth. Times are natural numbers in the
-- unit that each file names. Every for loop of the code is structural recursion over its list,
-- and so is the reading of a user list by its pages. The three other `while True` loops run on
-- fuel. For the lists of RoleAssignments one more than the number of listed items is enough. For
-- the pagination of SecretRotation one more than the number of rows is enough, since a page that
-- is not the last holds a row. For the loop of ResourceMigration three iterations for each unit
-- of a measure of what is left, and three more, are enough, since it gives up after three pages
-- in a row without progress. The chunks of a bulk update are cut with one unit of fuel for each
-- item. What the code calls of Django, DRF, PyJWT, uuid, the HTTP client and Envoy's messages is
-- a field of an `Env`, an `Issuer`, a `Crypto`, a `Setup`, a `Cache`, `Phases`, `Readers`,
-- `Hashers` or a `Library`. The hypotheses about them are `IsLawful`, the documented behaviour
-- of Django's cache and the round trips of JSON, base64 and Fernet, and what a saved user reads
-- like, and that a resource created without a service is the gateway's; `ReadsJsonb`, what the
-- database adapter returns for a JSON string; and, for the end of a migration, that a batch with
-- updated items shrinks what is left. `IsService` says that a service lists role assignments by
-- increasing positive ids and answers a query for the ids above a given one by a page of them or
-- by a failure.
--
-- Not modelled: logging, translation, the generation of key pairs, the database schema beyond
-- the columns read here, the other REST serializers, the views, the parts of the Envoy
-- configuration that do not depend on the data, the removal of legacy authenticators, the other
-- management commands, the OIDC provider and the settings.
pub mod Orchestration
pub mod Prelude
pub mod Proxy
pub mod ResourceMigration
pub mod RoleAssignments
pub mod Routes
pub mod SecretRotation
pub mod ServiceIdSync
pub mod ServiceToken
pub mod ServiceTokenAuth
pub mod UserMerge
pub mod Users

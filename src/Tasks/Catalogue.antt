-- ===== src/Tasks/Catalogue.antt =====
-- `Cards` of internal/tasks/tasks.go: the settings page.
use matrixctrl.Common.{List, [], ◌∷◌, ◌++◌}
use matrixctrl.Tasks.Fields.{Field, Card}
use matrixctrl.Tasks.Catalogue.Parts.{resources_card, workers_card}
use matrixctrl.Tasks.Catalogue.Access.{server_card, registration_card, federation_card}
use matrixctrl.Tasks.Catalogue.Messages.{messages_card, appearance_card, bridges_card}
use matrixctrl.Tasks.Catalogue.Calls.{calls_card}
pub mod Parts
pub mod Access
pub mod Messages
pub mod Calls
pub mod Apart

unfoldable pub cards : List Card
cards =
    server_card ∷ registration_card ∷ messages_card ∷ federation_card ∷ calls_card ∷ appearance_card
    ∷ resources_card ∷ bridges_card ∷ workers_card ∷ []

-- `AllFields`
unfoldable pub all_fields : List Card → List Field
all_fields [] = []
all_fields (c ∷ cs) = c.fields ++ all_fields cs

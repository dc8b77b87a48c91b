-- ===== src/Agent/Reporter.antt =====
-- The mails of internal/agent/reporter.go. The texts of statuses are those that `%s` writes.
use light_soar.Prelude.{
  Bool, true, false, ◌||◌, ◌&&◌, Option, none, some, List, [], ◌∷◌, ◌++◌, map, Text, ascii,
  if◌then◌else◌,
}
use light_soar.Digraph.Dag.{Dag, MailConfig, MailOn}
use light_soar.Execution.Status.{Status, NodeStatus, Err, node_status_text, status_text}
use light_soar.Execution.Data.{NodeData}
use light_soar.Persistence.Record.Defs.{RunRecord, NodeRecord}

pub record Mail : Type 0 where
  pub from : Text
  pub to : List Text
  pub subject : Text
  pub body : Text
  pub attachments : List Text

-- What a function of the reporter does: nothing, a mail, or a panic where it reads a mail
-- configuration that is not there.
pub data Reports : Type 0 where
  nothing panics : Reports
  sends : Mail → Reports

-- `addAttachments`
unfoldable pub add_attachments : Bool → List NodeRecord → List Text
add_attachments trigger nodes = if trigger then map (λ (n : NodeRecord). n.log) nodes else []

abbrev cell : (style : Text) → Text → Text
cell style val =
    ascii "<td align=\"center\" style=\"padding: 10px;"
    ++ (style ++ (ascii "\">" ++ (val ++ ascii "</td>")))

abbrev is_error_node : NodeStatus → Bool
is_error_node NodeStatus.error = true
is_error_node _ = false

abbrev status_style : NodeStatus → Text
status_style s =
    ascii " " ++ (if is_error_node s then ascii "color: #D01117;font-weight:bold;" else [])

abbrev row : NodeRecord → Text
unfolding node_status_text
row n =
    ascii "<tr>"
    ++ (cell [] n.step.name
        ++ (cell [] n.started_at
            ++ (cell [] n.finished_at
                ++ (cell (status_style n.status) (node_status_text n.status)
                    ++ (cell [] n.error ++ ascii "</tr>")))))

abbrev rows : List NodeRecord → Text
unfolding node_status_text
rows [] = []
rows (n ∷ ns) = row n ++ rows ns

abbrev head_cells : List Text → Text
head_cells [] = []
head_cells (t ∷ ts) =
    ascii "\t\t\t\t<th align=\"center\" style=\"padding: 10px;\">"
    ++ (t ++ (ascii "</th>\n" ++ head_cells ts))

abbrev head : Text
head =
    ascii "\n\t<table border=\"1\" style=\"border-collapse: collapse;\">\n\t\t<thead>\n\t\t\t<tr>\n"
    ++ (head_cells (map ascii ("Name" ∷ "Started At" ∷ "Finished At" ∷ "Status" ∷ "Error" ∷ []))
        ++ ascii "\t\t\t</tr>\n\t\t</thead>\n\t\t<tbody>\n\t")

-- `renderHTML`
unfoldable pub render_html : List NodeRecord → Text
unfolding node_status_text
render_html nodes = head ++ (rows nodes ++ ascii "</table>")

abbrev mail_by : Dag → RunRecord → Option MailConfig → Reports
unfolding render_html add_attachments status_text
mail_by dag status none = panics
mail_by dag status (some m) = sends (record {
  from = m.from;
  to = m.to ∷ [];
  subject =
      m.prefix
      ++ (ascii " " ++ (dag.name ++ (ascii " (" ++ (status_text status.status ++ ascii ")"))));
  body = render_html status.nodes;
  attachments = add_attachments m.attach_logs status.nodes;
})

abbrev mails_on_failure : Option MailOn → Bool
mails_on_failure none = false
mails_on_failure (some m) = m.failure

abbrev mails_on_success : Option MailOn → Bool
mails_on_success none = false
mails_on_success (some m) = m.success

abbrev is_error : Status → Bool
is_error Status.error = true
is_error _ = false

abbrev is_success : Status → Bool
is_success Status.success = true
is_success _ = false

abbrev is_some : Option Err → Bool
is_some none = false
is_some (some e) = true

-- `reportStep`, for a node with this data
unfoldable pub report_step : Dag → RunRecord → NodeData → Reports
unfolding mail_by
report_step dag status node =
    if is_error_node node.state.status && node.step.mail_on_error
    then mail_by dag status dag.error_mail
    else nothing

-- `send`, of the reporter
unfoldable pub send_report : Dag → RunRecord → Option Err → Reports
unfolding mail_by
send_report dag status e =
    if is_some e || is_error status.status
    then (if mails_on_failure dag.mail_on then mail_by dag status dag.error_mail else nothing)
    else if is_success status.status && mails_on_success dag.mail_on
    then mail_by dag status dag.info_mail
    else nothing
